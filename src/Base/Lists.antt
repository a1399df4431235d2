-- ===== src/Base/Lists.antt =====
-- Lists measured and indexed by native numbers, for Go's slices.
use Prim.Native.Nat.{ℕ, zero, suc, ◌+◌, ◌<◌, ◌≤◌}
use native.Mathlib.Nat.{ℕ_set}
use mathlib.Core.Path.{◌≡◌, refl, ap, ◌∙◌}
use mathlib.Core.Logic.{∥∥₁_elim}
use mathlib.Core.Logic.Or
use mathlib.Core.List.{List, [], ◌∷◌, ◌++◌, Perm, Permᴰ, Mem, mem-cons, not-mem-nil}
use mathlib.Core.List.Perm
use mathlib.Core.Option.{Option, none, some}
use native.Mathlib.Omega.{arith}
use juicemud.Base.Tests.{◌==◌, if◌then◌else◌}

module _ {ℓ} {A : Type ℓ} where
  abbrev pub length : List A → ℕ
  length [] = 0
  length (_ ∷ xs) = suc (length xs)

  abbrev pub get_elem? : List A → ℕ → Option A
  get_elem? [] i = none
  get_elem? (x ∷ xs) zero = some x
  get_elem? (x ∷ xs) (suc i) = get_elem? xs i

  unfoldable pub get_or : List A → ℕ → A → A
  get_or [] i d = d
  get_or (x ∷ xs) zero d = x
  get_or (x ∷ xs) (suc i) d = get_or xs i d

  abbrev pub set : List A → ℕ → A → List A
  set [] i v = []
  set (x ∷ xs) zero v = v ∷ xs
  set (x ∷ xs) (suc i) v = x ∷ set xs i v

  abbrev pub take : ℕ → List A → List A
  take zero xs = []
  take (suc n) [] = []
  take (suc n) (x ∷ xs) = x ∷ take n xs

  pub length-append : (xs ys : List A) → length (xs ++ ys) ≡ length xs + length ys
  length-append [] ys = omega arith
  length-append (x ∷ xs) ys = omega (arith, length-append xs ys)

  pub length-set : (xs : List A) (i : ℕ) (v : A) → length (set xs i v) ≡ length xs
  length-set [] i v = refl
  length-set (x ∷ xs) zero v = refl
  length-set (x ∷ xs) (suc i) v = ap suc (length-set xs i v)

  length_of_permᴰ : {xs ys : List A} → Permᴰ xs ys → length xs ≡ length ys
  length_of_permᴰ Permᴰ.nil = refl
  length_of_permᴰ (Permᴰ.cons x p) = ap suc (length_of_permᴰ p)
  length_of_permᴰ (Permᴰ.swap x y) = refl
  length_of_permᴰ (Permᴰ.trans p q) = length_of_permᴰ p ∙ length_of_permᴰ q

  pub length-perm : {xs ys : List A} → Perm xs ys → length xs ≡ length ys
  length-perm p = ∥∥₁_elim p (ℕ_set _ _) length_of_permᴰ

  pub get_elem?-eq_some :
      (xs : List A) (i : ℕ) (d : A) → i < length xs → get_elem? xs i ≡ some (get_or xs i d)
  unfolding get_or
  get_elem?-eq_some [] i d h = absurd (omega arith)
  get_elem?-eq_some (x ∷ xs) zero d h = refl
  get_elem?-eq_some (x ∷ xs) (suc i) d h = get_elem?-eq_some xs i d (omega arith)

  pub get_or-set :
      (xs : List A) (i c : ℕ) (v d : A)
      → i < length xs
      → get_or (set xs i v) c d ≡ (if i == c then v else get_or xs c d)
  unfolding get_or
  get_or-set [] i c v d h = absurd (omega arith)
  get_or-set (x ∷ xs) (suc i) (suc c) v d h = ground (arith, get_or-set xs i c v d)
  get_or-set (x ∷ xs) zero zero v d h = refl
  get_or-set (x ∷ xs) i c v d h = ground arith

  pub get_or-append :
      (xs ys : List A) (c : ℕ) (d : A) → c < length xs → get_or (xs ++ ys) c d ≡ get_or xs c d
  unfolding get_or
  get_or-append [] ys c d h = absurd (omega arith)
  get_or-append (x ∷ xs) ys zero d h = refl
  get_or-append (x ∷ xs) ys (suc c) d h = get_or-append xs ys c d (omega arith)

  pub get_or-take :
      (n : ℕ) (xs : List A) (c : ℕ) (d : A) → c < n → get_or (take n xs) c d ≡ get_or xs c d
  unfolding get_or
  get_or-take zero xs c d h = absurd (omega arith)
  get_or-take (suc n) [] c d h = refl
  get_or-take (suc n) (x ∷ xs) zero d h = refl
  get_or-take (suc n) (x ∷ xs) (suc c) d h = get_or-take n xs c d (omega arith)

  pub length-take : (n : ℕ) (xs : List A) → n ≤ length xs → length (take n xs) ≡ n
  length-take zero xs h = refl
  length-take (suc n) [] h = absurd (omega arith)
  length-take (suc n) (x ∷ xs) h = ap suc (length-take n xs (omega arith))

  -- Cutting off the last entry and putting it back.
  pub take-last :
      (n : ℕ) (xs : List A) (d : A) → length xs ≡ suc n → take n xs ++ get_or xs n d ∷ [] ≡ xs
  unfolding get_or
  take-last zero (x ∷ []) d h = refl
  take-last (suc n) (x ∷ xs) d h = ap (λ t. x ∷ t) (take-last n xs d (omega arith))
  take-last n xs d h = absurd (omega arith)

  -- Overwriting an entry trades it for the new one.
  pub set-perm :
      (xs : List A) (i : ℕ) (v d : A) → i < length xs → Perm (get_or xs i d ∷ set xs i v) (v ∷ xs)
  unfolding get_or
  set-perm [] i v d h = absurd (omega arith)
  set-perm (x ∷ xs) zero v d h = Perm.swap v x xs
  set-perm (x ∷ xs) (suc i) v d h =
      let below = Perm.cons x (set-perm xs i v d (omega arith)) in
      Perm.trans (Perm.swap x _ _) (Perm.trans below (Perm.swap v x xs))

  -- What holds at every index holds of every member.
  pub forall_mem_of_index {κ} :
      (P : A → Type κ)
      → ((x : A) → IsProp (P x))
      → (xs : List A) (d : A) → ((i : ℕ) → i < length xs → P (get_or xs i d))
      → (t : A) → Mem t xs
      → P t
  unfolding get_or
  forall_mem_of_index P prop [] d h t m = absurd (not-mem-nil m)
  forall_mem_of_index P prop (x ∷ xs) d h t m =
      Or.elim (prop t) (mem-cons.0 m) (λ e. rw e (h 0 (omega arith)))
        (forall_mem_of_index P prop xs d (λ i p. h (suc i) (omega arith)) t)
