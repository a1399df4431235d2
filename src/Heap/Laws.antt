-- ===== src/Heap/Laws.antt =====
-- Push, Pop, Peek and Size keep the heap order and the entries.
use mathlib.Core.Bool.{Bool-set}
use mathlib.Core.List.{append-nil, perm_middle}
use mathlib.Core.List.Perm
use juicemud.Base.{
  ℕ, suc, ◌+◌, ◌-◌, ◌<◌, ◌≡◌, refl, ◌∙◌, Bool, true, false, List, [], ◌∷◌, ◌++◌, Mem, Perm, Option,
  some, ◌==◌, arith, length, get_or, set, take, length-append, get_or-append, get_elem?-eq_some,
  length-set, length-take, get_or-take, get_or-set, set-perm, take-last, forall_mem_of_index,
}
use juicemud.Heap.{Heap, push, pop, peek, parent}
use juicemud.Heap.Order.{IsWeakOrder, IsHeap, root_least}
use juicemud.Heap.Up.{UpInv, bubble_up_restores}
use juicemud.Heap.Down.{DownInv, bubble_down_restores}

module _ {T : Type 0} (default : T) where
  -- The heap's slice is in heap order under the heap's own comparison.
  abbrev pub IsValid : Heap T → Type 0
  IsValid h = IsHeap default h.less h.items

  abbrev pub Pushed : Heap T → T → Option (Heap T) → Type 0
  Pushed h x r =
      (g : Heap T) × (r ≡ some g) × IsValid g × Perm g.items (x ∷ h.items) × (g.less ≡ h.less)

  -- Of a heap whose comparison is a weak order, Push makes a heap of the old entries and the new
  -- one, under the same comparison.
  pub push-Pushed : (h : Heap T) (x : T) → IsWeakOrder h.less → IsValid h → Pushed h x (push h x)
  unfolding push
  push-Pushed h x o v =
      let grown = h.items ++ x ∷ [] in
      let last = length grown - 1 in
      let n = length-append h.items (x ∷ []) in
      let inv : UpInv default h.less grown last = record {
        edges = λ c p q ne. ground (
          arith,
          n,
          v c,
          get_or-append h.items (x ∷ []) c default,
          get_or-append h.items (x ∷ []) (parent c) default,
        );
        bridged = λ c p q e pos. absurd (ground (arith, n));
      } in
      let (a, e, heap, perm) =
        bubble_up_restores default h.less (length grown) grown last o inv (ground (arith, n))
          (ground (arith, n)) in
      (
        record h { items = a },
        rw e,
        heap,
        Perm.trans perm (rw (append-nil h.items) at (perm_middle {a = x} h.items [])),
        refl,
      )

  -- The slice that Pop hands to bubbleDown.
  abbrev pub cut : List T → ℕ → List T
  cut a n = take n (set a 0 (get_or a n default))

  module _ (a : List T) (n : ℕ) (e : length a ≡ suc n) where
    last_kept : get_or (set a 0 (get_or a n default)) n default ≡ get_or a n default
    last_kept = ground (arith, get_or-set a 0 n (get_or a n default) default)

    pub cut-perm : Perm (get_or a 0 default ∷ cut a n) a
    cut-perm =
        let y = get_or a n default in
        let whole : cut a n ++ y ∷ [] ≡ set a 0 y =
          rw last_kept at (take-last n (set a 0 y) default (length-set a 0 y ∙ e)) in
        let traded = rw (← whole) at (set-perm a 0 y default (omega arith)) in
        let front = rw (append-nil (cut a n)) at (perm_middle {a = y} (cut a n) []) in
        Perm.cons_inv
          (Perm.trans (Perm.swap _ _ _) (Perm.trans (Perm.cons _ (Perm.symm front)) traded))

    cut-DownInv : (less : T → T → Bool) → IsHeap default less a → DownInv default less (cut a n) 0
    cut-DownInv less v =
        let y = get_or a n default in
        let same = λ (c : ℕ). get_or-take n (set a 0 y) c default in
        let kept = λ (c : ℕ). get_or-set a 0 c y default in
        let size = length-take n (set a 0 y) (omega (arith, length-set a 0 y)) in
        record {
          edges = λ c p q ne.
              ground (arith, v c, same c, same (parent c), kept c, kept (parent c), size);
          bridged = λ c p q r pos. absurd (omega arith);
        }

  abbrev pub Popped : Heap T → Option ((T × Bool) × Heap T) → Type 0
  Popped h r =
      (top : T) × (g : Heap T) × (r ≡ some ((top, true), g))
      × IsValid g
      × Perm (top ∷ g.items) h.items
      × ((t : T) → Mem t h.items → h.less t top ≡ false)
      × (g.less ≡ h.less)
      × (peek default h ≡ (top, true))

  -- On a heap that is not empty, whose comparison is a weak order, Pop takes the entry that Peek
  -- shows, none of the entries is less than it, and a heap of the others is left, under the same
  -- comparison.
  pub pop-Popped :
      (h : Heap T) → IsWeakOrder h.less → IsValid h → 0 < length h.items → Popped h (pop default h)
  unfolding pop peek
  pop-Popped h o v pos =
      let a = h.items in
      let n = length a - 1 in
      let size : length a ≡ suc n = omega arith in
      let (b, e, heap, perm) =
        bubble_down_restores default h.less (length (cut a n) + 1) (cut a n) 0 o
          (cut-DownInv a n size h.less v) (omega arith) (omega arith) in
      let some_left : (length a == 0) ≡ false = ground arith in
      (
        get_or a 0 default,
        record h { items = b },
        rw (
          some_left,
          get_elem?-eq_some a 0 default pos,
          get_elem?-eq_some a n default (omega arith),
          e,
        ),
        heap,
        Perm.trans (Perm.cons _ perm) (cut-perm a n size),
        forall_mem_of_index (λ t. h.less t (get_or a 0 default) ≡ false) (λ t. Bool-set _ _) a
            default (λ i. root_least default h.less o a i v),
        refl,
        rw some_left,
      )

  -- Pop and Peek on an empty heap give the zero value and false, and change nothing.
  pub pop-empty :
      (h : Heap T)
      → length h.items ≡ 0
      → (pop default h ≡ some ((default, false), h)) × (peek default h ≡ (default, false))
  unfolding pop peek
  pop-empty h e = ground arith
