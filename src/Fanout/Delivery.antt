-- ===== src/Fanout/Delivery.antt =====
-- What reaches the terminals of a Fanout, and which are left.
use juicemud.Base.{
  ℕ, ◌≤◌, ◌≡◌, refl, sym, ap, Bool, true, false, ◌||◌, List, [], ◌∷◌, ◌++◌, some, ◌==◌, length,
  Error, Result, ok, err, arith, ◌∙◌, Result-cases, Bool-cases, inl, inr,
}
use mathlib.Core.List.{append_assoc, append-nil}
use juicemud.Fanout.{Fanout, max_of, write_all, write}

-- The terminal is one of the set.
unfoldable pub holds : ℕ → Fanout → Bool
holds t [] = false
holds t (s ∷ f) = s == t || holds t f

module _ (write_to : ℕ → List ℕ → Result ℕ) where
  -- The terminals that a write does not fail for.
  abbrev pub reached : Fanout → List ℕ → Fanout
  reached [] b = []
  reached (t ∷ f) b =
      let rest = reached f b in elim (write_to t b) [ err e ↦ rest | ok n ↦ t ∷ rest ]

  -- The errors of the others.
  abbrev pub failures : Fanout → List ℕ → List Error
  failures [] b = []
  failures (t ∷ f) b =
      let rest = failures f b in elim (write_to t b) [ err e ↦ e ∷ rest | ok n ↦ rest ]

  -- How many bytes the terminals took at most.
  abbrev pub AtMost : ℕ → List ℕ → Type 0
  AtMost m b = (t n : ℕ) → write_to t b ≡ ok n → n ≤ m

  write_all-reached :
      (f : Fanout) (b : List ℕ) (errs : List Error) (max : ℕ)
      → (write_all write_to f b errs max).kept ≡ reached f b
  unfolding write_all
  write_all-reached [] b errs max = refl
  write_all-reached (t ∷ f) b errs max = elim (Result-cases (write_to t b)) [
    | inl (e, h) ↦ rw (h, write_all, reached) (write_all-reached f b (errs ++ e ∷ []) max)
    | inr (n, h) ↦
        rw (h, write_all, reached) (ap (λ k. t ∷ k) (write_all-reached f b errs (max_of n max)))
  ]

  write_all-failures :
      (f : Fanout) (b : List ℕ) (errs : List Error) (max : ℕ)
      → (write_all write_to f b errs max).errs ≡ errs ++ failures f b
  unfolding write_all
  write_all-failures [] b errs max = sym (append-nil errs)
  write_all-failures (t ∷ f) b errs max = elim (Result-cases (write_to t b)) [
    | inl (e, h) ↦
        rw (h, write_all, failures)
          (write_all-failures f b (errs ++ e ∷ []) max ∙ append_assoc errs (e ∷ []) (failures f b))
    | inr (n, h) ↦ rw (h, write_all, failures) (write_all-failures f b errs (max_of n max))
  ]

  write_all-le :
      (f : Fanout) (b : List ℕ) (errs : List Error) (max m : ℕ)
      → AtMost m b
      → max ≤ m
      → ((write_all write_to f b errs max).max ≤ m) × (max ≤ (write_all write_to f b errs max).max)
  unfolding write_all
  write_all-le [] b errs max m small le = (le, omega arith)
  write_all-le (t ∷ f) b errs max m small le = elim (Result-cases (write_to t b)) [
    | inl (e, h) ↦ rw (h, write_all) (write_all-le f b (errs ++ e ∷ []) max m small le)
    | inr (n, h) ↦
        let here = small t n h in
        let rest = write_all-le f b errs (max_of n max) m small (ground (arith, here)) in
        rw (h, write_all) (rest.0, ground (arith, rest.1))
  ]

  write_all-ge :
      (f : Fanout) (b : List ℕ) (errs : List Error) (max m s : ℕ)
      → AtMost m b
      → max ≤ m
      → holds s f ≡ true
      → (n : ℕ) → write_to s b ≡ ok n
      → n ≤ (write_all write_to f b errs max).max
  unfolding write_all holds
  write_all-ge [] b errs max m s small le there n took = absurd (cc)
  write_all-ge (t ∷ f) b errs max m s small le there n took = elim (Result-cases (write_to t b)) [
    | inl (e, h) ↦ elim (Bool-cases (t == s)) [
      | inl same ↦
          let at : t ≡ s = ground arith in
          let bad : ◌≡◌ {A = Result ℕ} (err e) (ok n) = sym h ∙ ap (λ k. write_to k b) at ∙ took in
          absurd (cc)
      | inr other ↦
          rw (h, write_all)
            (write_all-ge f b (errs ++ e ∷ []) max m s small le (ground arith) n took)
    ]
    | inr (k, h) ↦
        let here = small t k h in
        elim (Bool-cases (t == s)) [
          | inl same ↦
              let at : t ≡ s = ground arith in
              let took_it : ◌≡◌ {A = Result ℕ} (ok k) (ok n) =
                sym h ∙ ap (λ i. write_to i b) at ∙ took in
              let rest = (write_all-le f b errs (max_of k max) m small (ground (arith, here))).1 in
              rw (h, write_all) (ground (arith, rest, took_it))
          | inr other ↦
              rw (h, write_all)
                (write_all-ge f b errs (max_of k max) m s small (ground (arith, here))
                  (ground arith) n took)
        ]
  ]

  -- After a write the terminals left are exactly those that it did not fail for, in their order; the
  -- errors are those of the others; and if no terminal takes more than the bytes there are, the
  -- number is at most theirs, and is theirs if some terminal took them all.
  pub write-Delivered :
      (f : Fanout) (b : List ℕ)
      → AtMost (length b) b
      → let (left, max, errs) = write write_to (some f) b in
        (left ≡ some (reached f b))
        × (errs ≡ failures f b)
        × (max ≤ length b)
        × ((t : ℕ) → holds t f ≡ true → write_to t b ≡ ok (length b) → max ≡ length b)
  unfolding write
  write-Delivered f b small = (
    ap some (write_all-reached f b [] 0),
    write_all-failures f b [] 0,
    (write_all-le f b [] 0 (length b) small (omega arith)).0,
    λ t there took.
        let most = (write_all-le f b [] 0 (length b) small (omega arith)).0 in
        let least = write_all-ge f b [] 0 (length b) t small (omega arith) there (length b) took in
        omega arith,
  )
