-- ===== src/Heap/Order.antt =====
-- The order that New is given, the heap invariant, and the effect of one swap on a slice.
use mathlib.Core.List.Perm
use juicemud.Base.{
  ℕ, zero, suc, ◌<◌, ◌≡◌, ◌∙◌, Bool, true, false, List, Perm, some, ◌==◌, if◌then◌else◌, arith,
  length, get_or, set, length-set, get_elem?-eq_some, get_or-set, set-perm, Bool-cases, inl, inr,
}
use juicemud.Heap.{parent, swap, less_at}

-- A strict weak order: what `less` must be for the heap to make sense.
pub record IsWeakOrder {T : Type 0} (less : T → T → Bool) : Type 0 where
  pub asym : (x y : T) → less x y ≡ true → less y x ≡ false
  pub trans : (x y z : T) → less y x ≡ false → less z y ≡ false → less z x ≡ false

module _ {T : Type 0} (default : T) where
  -- `a[i] = a[j], a[j] = a[i]` with both in range
  pub swapped : List T → ℕ → ℕ → List T
  swapped a i j = set (set a i (get_or a j default)) j (get_or a i default)

  module _ (a : List T) (i j : ℕ) (hi : i < length a) (hj : j < length a) where
    pub swap-eq_some : swap a i j ≡ some (swapped a i j)
    unfolding swap swapped
    swap-eq_some = rw (get_elem?-eq_some a i default hi, get_elem?-eq_some a j default hj)

    pub less_at-eq_some :
        (less : T → T → Bool)
        → less_at less a i j ≡ some (less (get_or a i default) (get_or a j default))
    unfolding less_at
    less_at-eq_some less = rw (get_elem?-eq_some a i default hi, get_elem?-eq_some a j default hj)

    pub length-swapped : length (swapped a i j) ≡ length a
    unfolding swapped
    length-swapped =
        length-set (set a i (get_or a j default)) j (get_or a i default)
        ∙ length-set a i (get_or a j default)

    pub get_or-swapped :
        (c : ℕ)
        → get_or (swapped a i j) c default ≡ (
            if j == c
            then get_or a i default
            else if i == c
            then get_or a j default
            else get_or a c default)
    unfolding swapped
    get_or-swapped c =
        get_or-set (set a i (get_or a j default)) j c (get_or a i default) default
          (rw (length-set a i (get_or a j default)) hj)
        ∙ rw (get_or-set a i c (get_or a j default) default hi)

    pub swapped-perm : Perm (swapped a i j) a
    unfolding swapped
    swapped-perm =
        let x = get_or a i default in
        let y = get_or a j default in
        let kept : get_or (set a i y) j default ≡ y =
          ground (arith, get_or-set a i j y default hi) in
        let back = set-perm (set a i y) j x default (rw (length-set a i y) hj) in
        Perm.cons_inv (Perm.trans (rw kept at back) (set-perm a i y default hi))

  module _ (less : T → T → Bool) where
    -- `x` may stand above `y`.
    abbrev pub Above : List T → ℕ → ℕ → Type 0
    Above a p c = less (get_or a c default) (get_or a p default) ≡ false

    -- No entry is less than its parent.
    abbrev pub IsHeap : List T → Type 0
    IsHeap a = (c : ℕ) → 0 < c → c < length a → Above a (parent c) c

    below_root :
        IsWeakOrder less
        → (fuel : ℕ) (a : List T) (i : ℕ) → IsHeap a
        → i < fuel
        → i < length a
        → Above a 0 i
    below_root o zero a i h f p = absurd (omega arith)
    below_root o (suc fuel) a zero h f p =
        let x = get_or a 0 default in
        elim (Bool-cases (less x x)) [ inl t ↦ o.asym x x t | inr t ↦ t ]
    below_root o (suc fuel) a (suc i) h f p =
        o.trans (get_or a 0 default) (get_or a (parent (suc i)) default) (get_or a (suc i) default)
          (below_root o fuel a (parent (suc i)) h (omega arith) (omega arith))
          (h (suc i) (omega arith) p)

    -- Nothing in a heap is less than its root.
    pub root_least : IsWeakOrder less → (a : List T) (i : ℕ) → IsHeap a → i < length a → Above a 0 i
    root_least o a i h p = below_root o (suc i) a i h (omega arith) p
