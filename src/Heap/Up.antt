-- ===== src/Heap/Up.antt =====
-- bubbleUp: moving an entry that may be less than its parent up to its place.
use mathlib.Core.List.Perm
use juicemud.Base.{
  ℕ, zero, suc, ◌<◌, ◌≡◌, ◌≢◌, refl, inl, inr, Bool, true, List, Perm, Option, some, ◌==◌, arith,
  length, get_or, lt→ltb, Bool-cases,
}
use juicemud.Heap.{parent, bubble_up}
use juicemud.Heap.Order.{
  IsWeakOrder, swapped, swap-eq_some, less_at-eq_some, length-swapped, get_or-swapped, swapped-perm,
  Above, IsHeap,
}

module _ {T : Type 0} (default : T) (less : T → T → Bool) where
  -- The loop ends well: in a heap of the same entries.
  abbrev pub Sifted : List T → Option (List T) → Type 0
  Sifted a r = (b : List T) × (r ≡ some b) × IsHeap default less b × Perm b a

  -- Only the edge from `i` to its parent may be out of order.
  pub record UpInv (a : List T) (i : ℕ) : Type 0 where
    pub edges : (c : ℕ) → 0 < c → c < length a → c ≢ i → Above default less a (parent c) c
    pub bridged :
        (c : ℕ) → 0 < c → c < length a → parent c ≡ i → 0 < i → Above default less a (parent i) c

  UpInv-swapped :
      (a : List T) (i : ℕ)
      → IsWeakOrder less
      → UpInv a i
      → 0 < i
      → i < length a
      → less (get_or a i default) (get_or a (parent i) default) ≡ true
      → UpInv (swapped default a i (parent i)) (parent i)
  UpInv-swapped a i o v pos h below =
      let p = parent i in
      let hp : p < length a = omega arith in
      let at = get_or-swapped default a i p h hp in
      let size = length-swapped default a i p h hp in
      let x = get_or a i default in
      let y = get_or a p default in
      record {
        edges = λ c q r ne. ground (
          arith,
          at c,
          at (parent c),
          size,
          o.asym x y,
          v.edges c,
          v.bridged c,
          o.trans x y (get_or a c default),
        );
        bridged = λ c q r e pp. ground (
          arith,
          at c,
          at (parent p),
          size,
          v.edges c,
          v.edges p,
          o.trans (get_or a (parent p) default) y (get_or a c default),
        );
      }

  pub bubble_up_restores :
      (fuel : ℕ) (a : List T) (i : ℕ)
      → IsWeakOrder less
      → UpInv a i
      → i < fuel
      → i < length a
      → Sifted a (bubble_up fuel less a i)
  unfolding bubble_up
  bubble_up_restores zero a i o v f h = absurd (omega arith)
  bubble_up_restores (suc fuel) a zero o v f h =
      (a, refl, (λ c q r. v.edges c q r (omega arith)), Perm.refl a)
  bubble_up_restores (suc fuel) a (suc k) o v f h =
      let i = suc k in
      let p = parent i in
      let hp : p < length a = omega arith in
      elim (Bool-cases (less (get_or a i default) (get_or a p default))) [
        | inl below ↦
            let (b, e, heap, perm) =
              bubble_up_restores fuel (swapped default a i p) p o
                (UpInv-swapped a i o v (omega arith) h below) (omega arith)
                (rw (length-swapped default a i p h hp) hp) in
            (
              b,
              rw
                  (
                    lt→ltb 0 i (omega arith),
                    less_at-eq_some default a i p h hp less,
                    below,
                    swap-eq_some default a i p h hp,
                  )
                  e,
              heap,
              Perm.trans perm (swapped-perm default a i p h hp),
            )
        | inr above ↦ (
          a,
          rw (lt→ltb 0 i (omega arith), less_at-eq_some default a i p h hp less, above),
          (λ c q r. elim (Bool-cases (c == i)) [
            | inl here ↦ ground (arith)
            | inr elsewhere ↦ v.edges c q r (ground arith)
          ]),
          Perm.refl a,
        )
      ]
