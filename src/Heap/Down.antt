-- ===== src/Heap/Down.antt =====
-- bubbleDown: moving an entry that may be above a lesser one down to its place.
use mathlib.Core.List.Perm
use juicemud.Base.{
  ℕ, zero, suc, ◌+◌, ◌*◌, ◌<◌, ◌≤◌, ◌≡◌, ◌≢◌, refl, ◌⊎◌, inl, inr, Bool, false, List, some, ◌==◌,
  ltb, ltb→lt, arith, length, get_or, Bool-cases, if◌then◌else◌, ==_iff, ◌∙◌,
}
use juicemud.Heap.{parent, smaller, smallest_of, bubble_down}
use juicemud.Heap.Order.{
  IsWeakOrder, swapped, swap-eq_some, less_at-eq_some, length-swapped, get_or-swapped, swapped-perm,
  Above,
}
use juicemud.Heap.Up.{Sifted}

module _ {T : Type 0} (default : T) (less : T → T → Bool) where
  -- Only the edges from `i` to its children may be out of order.
  pub record DownInv (a : List T) (i : ℕ) : Type 0 where
    pub edges : (c : ℕ) → 0 < c → c < length a → parent c ≢ i → Above default less a (parent c) c
    pub bridged :
        (c : ℕ) → 0 < c → c < length a → parent c ≡ i → 0 < i → Above default less a (parent i) c

  -- One of the two tests of the loop body, as a function.
  abbrev pick : List T → ℕ → ℕ → ℕ
  pick a s c =
      if ltb c (length a)
      then (if less (get_or a c default) (get_or a s default) then c else s)
      else s

  smaller-eq_some : (a : List T) (s c : ℕ) → s < length a → smaller less a s c ≡ some (pick a s c)
  unfolding smaller
  smaller-eq_some a s c h = elim (Bool-cases (ltb c (length a))) [
    | inl t ↦ rw (t, less_at-eq_some default a c s (omega (arith, ltb→lt c (length a) t)) h less)
    | inr t ↦ rw t
  ]

  -- `s` is `i` or a child of it, and neither `i` nor an entry that was looked at is less.
  record Best (a : List T) (i s : ℕ) (Seen : ℕ → Type 0) : Type 0 where
    inside : s < length a
    place : (s ≡ i) ⊎ ((parent s ≡ i) × (i < s))
    least : (c : ℕ) → Seen c → Above default less a s c
    top : Above default less a s i

  irrefl : IsWeakOrder less → (x : T) → less x x ≡ false
  irrefl o x = elim (Bool-cases (less x x)) [ inl t ↦ o.asym x x t | inr t ↦ t ]

  module _ (a : List T) (i : ℕ) (o : IsWeakOrder less) where
    pick-Best :
        (s c : ℕ) (Seen : ℕ → Type 0)
        → Best a i s Seen
        → parent c ≡ i
        → i < c
        → Best a i (pick a s c) (λ d. Seen d ⊎ ((d ≡ c) × (d < length a)))
    pick-Best s c Seen v e lt = elim (Bool-cases (ltb c (length a))) [
      | inr out ↦ rw out (record {
        inside = v.inside;
        place = v.place;
        least =
            λ d look. elim look [ inl old ↦ v.least d old | inr (same, r) ↦ absurd (ground arith) ];
        top = v.top;
      })
      | inl in_range ↦ elim (Bool-cases (less (get_or a c default) (get_or a s default))) [
        | inr above ↦
            rw (in_range, above)
              (record {
                inside = v.inside;
                place = v.place;
                least =
                    λ d look. elim look [ inl old ↦ v.least d old | inr (same, r) ↦ rw same above ];
                top = v.top;
              })
        | inl below ↦
            let x = get_or a c default in
            let y = get_or a s default in
            let back = o.asym x y below in
            rw (in_range, below)
              (record {
                inside = ltb→lt c (length a) in_range;
                place = inr (e, lt);
                least = λ d look. elim look [
                  | inl old ↦ o.trans x y (get_or a d default) back (v.least d old)
                  | inr (same, r) ↦ rw same (irrefl o x)
                ];
                top = o.trans x y (get_or a i default) back v.top;
              })
      ]
    ]

    abbrev chosen : ℕ
    chosen = pick a (pick a i (2 * i + 1)) (2 * i + 2)

    abbrev IsChild : ℕ → Type 0
    IsChild c = (0 < c) × (c < length a) × (parent c ≡ i)

    chosen-Best : i < length a → Best a i chosen IsChild
    chosen-Best h =
        let first =
          pick-Best i (2 * i + 1) (λ d. ⊥)
            (record {
              inside = h;
              place = inl refl;
              least = λ d look. absurd look;
              top = irrefl o (get_or a i default);
            })
            (omega arith) (omega arith) in
        let both =
          pick-Best (pick a i (2 * i + 1)) (2 * i + 2) _ first (omega arith) (omega arith) in
        record {
          inside = both.inside;
          place = both.place;
          least = λ d (p, q, e). both.least d (elim (Bool-cases (d == 2 * i + 1)) [
            | inl left ↦ inl (inr (ground arith, q))
            | inr other ↦ inr (ground arith, q)
          ]);
          top = both.top;
        }

    smallest_of-eq_some : i < length a → smallest_of less a i ≡ some chosen
    unfolding smallest_of
    smallest_of-eq_some h = rw (
      smaller-eq_some a i (2 * i + 1) h,
      smaller-eq_some a (pick a i (2 * i + 1)) (2 * i + 2) (ground arith),
    )

    DownInv-swapped :
        (s : ℕ)
        → DownInv a i
        → Best a i s IsChild
        → s ≢ i
        → i < length a
        → DownInv (swapped default a i s) s
    DownInv-swapped s v b ne h =
        let at = get_or-swapped default a i s h b.inside in
        let size = length-swapped default a i s h b.inside in
        let child : (parent s ≡ i) × (i < s) = elim b.place [
          | inl same ↦ absurd (ne same)
          | inr p ↦ p
        ] in
        record {
          edges = λ c p q r. ground (
            arith,
            at c,
            at (parent c),
            size,
            v.edges c,
            b.top,
            b.least c,
            v.bridged s,
            v.bridged c,
          );
          bridged = λ c p q r pos. ground (arith, at c, at (parent s), size, v.edges c);
        }

  pub smallest_of-out : (a : List T) (i : ℕ) → length a ≤ i → smallest_of less a i ≡ some i
  unfolding smallest_of smaller
  smallest_of-out a i h = ground arith

  pub bubble_down_stops :
      (fuel : ℕ) (a : List T) (i s : ℕ)
      → smallest_of less a i ≡ some s
      → s ≡ i
      → bubble_down (suc fuel) less a i ≡ some a
  unfolding bubble_down
  bubble_down_stops fuel a i s e same = rw (e, (==_iff s i).1 same)

  pub bubble_down_sinks :
      (fuel : ℕ) (a : List T) (i s : ℕ)
      → smallest_of less a i ≡ some s
      → (s == i) ≡ false
      → i < length a
      → s < length a
      → bubble_down (suc fuel) less a i ≡ bubble_down fuel less (swapped default a i s) s
  unfolding bubble_down
  bubble_down_sinks fuel a i s e differ h k = rw (e, differ, swap-eq_some default a i s h k)

  -- With fuel above the entries that may still be passed, the loop ends in a heap.
  pub bubble_down_restores :
      (fuel : ℕ) (a : List T) (i : ℕ)
      → IsWeakOrder less
      → DownInv a i
      → 0 < fuel
      → length a < fuel + i
      → Sifted default less a (bubble_down fuel less a i)
  bubble_down_restores zero a i o v pos f = absurd (omega arith)
  bubble_down_restores (suc fuel) a i o v pos f = elim (Bool-cases (ltb i (length a))) [
    | inr out ↦ (
      a,
      bubble_down_stops fuel a i i (smallest_of-out a i (ground arith)) refl,
      (λ c p q. v.edges c p q (ground arith)),
      Perm.refl a,
    )
    | inl in_range ↦
        let h = ltb→lt i (length a) in_range in
        let s = chosen a i o in
        let b = chosen-Best a i o h in
        elim (Bool-cases (s == i)) [
          | inl stop ↦
              let same : s ≡ i = (==_iff s i).0 stop in
              (
                a,
                bubble_down_stops fuel a i s (smallest_of-eq_some a i o h) same,
                (λ c p q. elim (Bool-cases (parent c == i)) [
                  | inl child ↦ ground (arith, b.least c)
                  | inr other ↦ v.edges c p q (ground arith)
                ]),
                Perm.refl a,
              )
          | inr differ ↦
              let ne : s ≢ i = ground arith in
              let next =
                bubble_down_restores fuel (swapped default a i s) s o
                  (DownInv-swapped a i o s v b ne h) (ground (arith, b.place, b.inside))
                  (rw (length-swapped default a i s h b.inside) (ground (arith, b.place))) in
              (
                next.0,
                bubble_down_sinks fuel a i s (smallest_of-eq_some a i o h) differ h b.inside
                    ∙ next.1,
                next.2,
                Perm.trans next.3 (swapped-perm default a i s h b.inside),
              )
        ]
  ]
