-- ===== src/Heap/Shuffle.antt =====
-- What Push and Pop do to the entries under any comparison at all, also one that has changed since the
-- entries were put where they are.
use mathlib.Core.List.{append-nil, perm_middle}
use mathlib.Core.List.Perm
use juicemud.Base.{
  ℕ, zero, suc, ◌+◌, ◌-◌, ◌*◌, ◌<◌, ◌≡◌, refl, ◌∙◌, inl, inr, ◌⊎◌, Bool, true, false, List, [], ◌∷◌,
  ◌++◌, Perm, Option, some, ◌==◌, ltb, ltb→lt, lt→ltb, arith, length, get_or, Bool-cases, ==_iff,
  get_elem?-eq_some, length-append,
}
use juicemud.Heap.{Heap, parent, bubble_up, smaller, smallest_of, bubble_down, push, pop, peek}
use juicemud.Heap.Order.{swapped, swap-eq_some, less_at-eq_some, length-swapped, swapped-perm}
use juicemud.Heap.Down.{smallest_of-out, bubble_down_stops, bubble_down_sinks}
use juicemud.Heap.Laws.{cut, cut-perm}

module _ {T : Type 0} (default : T) (less : T → T → Bool) where
  -- The loop ends, with the same entries.
  abbrev Shuffled : List T → Option (List T) → Type 0
  Shuffled a r = (b : List T) × (r ≡ some b) × Perm b a

  bubble_up-Shuffled :
      (fuel : ℕ) (a : List T) (i : ℕ)
      → i < fuel
      → i < length a
      → Shuffled a (bubble_up fuel less a i)
  unfolding bubble_up
  bubble_up-Shuffled zero a i f h = absurd (omega arith)
  bubble_up-Shuffled (suc fuel) a zero f h = (a, refl, Perm.refl a)
  bubble_up-Shuffled (suc fuel) a (suc k) f h =
      let i = suc k in
      let p = parent i in
      let hp : p < length a = omega arith in
      elim (Bool-cases (less (get_or a i default) (get_or a p default))) [
        | inl below ↦
            let (b, e, perm) =
              bubble_up-Shuffled fuel (swapped default a i p) p (omega arith)
                (rw (length-swapped default a i p h hp) hp) in
            (
              b,
              rw
                  (
                    lt→ltb 0 i (omega arith),
                    less_at-eq_some default a i p h hp less,
                    below,
                    swap-eq_some default a i p h hp,
                  )
                  e,
              Perm.trans perm (swapped-perm default a i p h hp),
            )
        | inr above ↦ (
          a,
          rw (lt→ltb 0 i (omega arith), less_at-eq_some default a i p h hp less, above),
          Perm.refl a,
        )
      ]

  -- The index that is looked for is one of the two, and in range if the first is.
  abbrev Picked : List T → ℕ → ℕ → Option ℕ → Type 0
  Picked a s c r = (k : ℕ) × (r ≡ some k) × (k < length a) × ((k ≡ s) ⊎ (k ≡ c))

  smaller-Picked : (a : List T) (s c : ℕ) → s < length a → Picked a s c (smaller less a s c)
  unfolding smaller
  smaller-Picked a s c h = elim (Bool-cases (ltb c (length a))) [
    | inr out ↦ (s, rw out refl, h, inl refl)
    | inl in_range ↦
        let hc = ltb→lt c (length a) in_range in
        elim (Bool-cases (less (get_or a c default) (get_or a s default))) [
          | inl below ↦
              (c, rw (in_range, less_at-eq_some default a c s hc h less, below) refl, hc, inr refl)
          | inr above ↦
              (s, rw (in_range, less_at-eq_some default a c s hc h less, above) refl, h, inl refl)
        ]
  ]

  smallest_of-Picked :
      (a : List T) (i : ℕ)
      → i < length a
      → (s : ℕ) × (smallest_of less a i ≡ some s) × (s < length a) × ((s ≡ i) ⊎ (i < s))
  unfolding smallest_of
  smallest_of-Picked a i h =
      let (l, el, hl, pl) = smaller-Picked a i (2 * i + 1) h in
      let (s, es, hs, ps) = smaller-Picked a l (2 * i + 2) hl in
      (s, rw el es, hs, ground (arith, pl, ps))

  bubble_down-Shuffled :
      (fuel : ℕ) (a : List T) (i : ℕ)
      → 0 < fuel
      → length a < fuel + i
      → Shuffled a (bubble_down fuel less a i)
  bubble_down-Shuffled zero a i pos f = absurd (omega arith)
  bubble_down-Shuffled (suc fuel) a i pos f = elim (Bool-cases (ltb i (length a))) [
    | inr out ↦ (
      a,
      bubble_down_stops default less fuel a i i (smallest_of-out default less a i (ground arith))
          refl,
      Perm.refl a,
    )
    | inl in_range ↦
        let h = ltb→lt i (length a) in_range in
        let (s, e, hs, place) = smallest_of-Picked a i h in
        elim (Bool-cases (s == i)) [
          | inl stop ↦
              (a, bubble_down_stops default less fuel a i s e ((==_iff s i).0 stop), Perm.refl a)
          | inr differ ↦
              let (b, ends, perm) =
                bubble_down-Shuffled fuel (swapped default a i s) s
                  (ground (arith, place, hs, differ))
                  (rw (length-swapped default a i s h hs) (ground (arith, place, differ))) in
              (
                b,
                bubble_down_sinks default less fuel a i s e differ h hs ∙ ends,
                Perm.trans perm (swapped-perm default a i s h hs),
              )
        ]
  ]

module _ {T : Type 0} (default : T) where
  -- Push adds the entry.
  pub push-Shuffled :
      (h : Heap T) (x : T) → (g : Heap T) × (push h x ≡ some g) × Perm g.items (x ∷ h.items)
  unfolding push
  push-Shuffled h x =
      let grown = h.items ++ x ∷ [] in
      let n = length-append h.items (x ∷ []) in
      let (a, e, perm) =
        bubble_up-Shuffled default h.less (length grown) grown (length grown - 1)
          (ground (arith, n)) (ground (arith, n)) in
      (
        record h { items = a },
        rw e,
        Perm.trans perm (rw (append-nil h.items) at (perm_middle {a = x} h.items [])),
      )

  -- Pop takes the entry that Peek shows, from a heap that is not empty.
  pub pop-Shuffled :
      (h : Heap T)
      → 0 < length h.items
      → (top : T) × (g : Heap T) × (pop default h ≡ some ((top, true), g))
        × Perm (top ∷ g.items) h.items
        × (peek default h ≡ (top, true))
  unfolding pop peek
  pop-Shuffled h pos =
      let a = h.items in
      let n = length a - 1 in
      let size : length a ≡ suc n = omega arith in
      let (b, e, perm) =
        bubble_down-Shuffled default h.less (length (cut default a n) + 1) (cut default a n) 0
          (omega arith) (omega arith) in
      let some_left : (length a == 0) ≡ false = ground arith in
      (
        get_or a 0 default,
        record h { items = b },
        rw (
          some_left,
          get_elem?-eq_some a 0 default pos,
          get_elem?-eq_some a n default (omega arith),
          e,
        ),
        Perm.trans (Perm.cons _ perm) (cut-perm default a n size),
        rw some_left,
      )
