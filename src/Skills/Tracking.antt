-- ===== src/Skills/Tracking.antt =====
-- Every use that is remembered is in the heap, so that it is forgotten in time; and recharge ends.
use mathlib.Core.Logic.{∥∥₁_elim}
use mathlib.Core.List.{mem-cons, Mem-prop, mem-cons_of_mem, mem-cons_self}
use mathlib.Core.List.Perm
use mathlib.Core.Path.{subst}
use juicemud.Base.{
  ℕ, zero, suc, ◌<◌, ◌≡◌, ◌≢◌, refl, sym, ap, ◌∙◌, inl, inr, Bool, true, false, ◌∷◌, Mem, Perm,
  Option, none, some, Text, ◌=~◌, =~_iff, =~_self, ltb, leb, ◌==◌, arith, length, length-perm,
  Bool-cases, Option-cases, Assoc, lookup, insert, erase, lookup-insert, lookup-erase,
}
use juicemud.Heap.{Heap}
use juicemud.Heap.Laws.{pop-empty}
use juicemud.Heap.Shuffle.{pop-Shuffled, push-Shuffled}
use juicemud.Skills.{
  SkillRule, Use, GlobalSkillUses, no_use, key, Numbers, recharge_time, under_rules, forget, expire,
  recharge, recharge_value,
}

-- The heap has every use that is remembered, which is so under its own key.
pub record IsTracked (g : GlobalSkillUses) : Type 0 where
  pub tracked : (k : Text) (u : Use) → lookup k g.uses ≡ some u → (key u ≡ k) × Mem u g.heap.items

module _ (n : Numbers) (rules : Assoc SkillRule) where
  no_two : {b : Bool} → b ≡ false → b ≡ true → ⊥
  no_two h k = cc

  newer_than :
      {latest top u : Use} → leb latest.at top.at ≡ false → some latest ≡ some u → u ≡ top → ⊥
  newer_than {latest} {top} {u} newer found q =
      let same : latest ≡ u = cc in
      let at : latest.at ≡ top.at = ap (λ x. x.at) (same ∙ q) in ground (arith, newer, at)

  -- A use that is still remembered is not the one that was forgotten.
  forget-other :
      (top : Use) (uses : Assoc Use) (k : Text) (u : Use)
      → lookup k (forget n rules top uses) ≡ some u
      → (lookup k uses ≡ some u) × (key u ≡ k → u ≢ top)
  unfolding forget
  forget-other top uses k u h = elim (Option-cases (lookup (key top) uses)) [
    | inl gone ↦
        let h1 : lookup k uses ≡ some u = rw (gone, forget) at h in
        (
          h1,
          λ e q.
              let at : key top ≡ k = ap key (sym q) ∙ e in
              let bad : ◌≡◌ {A = Option Use} none (some u) =
                sym gone ∙ ap (λ j. lookup j uses) at ∙ h1 in
              cc,
        )
    | inr (latest, there) ↦ elim (Bool-cases (leb latest.at top.at)) [
      | inl old ↦
          let h1 : lookup k (erase (key top) uses) ≡ some u = rw (there, old, forget) at h in
          let h2 = rw (lookup-erase k (key top) uses) at h1 in
          elim (Bool-cases (key top =~ k)) [
            | inl same ↦ let bad : ◌≡◌ {A = Option Use} none (some u) = rw same at h2 in absurd (cc)
            | inr other ↦ (
              rw other at h2,
              λ e q.
                  let at : key top ≡ k = ap key (sym q) ∙ e in
                  let same : (key top =~ k) ≡ true = (=~_iff (key top) k).1 at in no_two other same,
            )
          ]
      | inr newer ↦
          let h1 : lookup k uses ≡ some u = rw (there, newer, forget) at h in
          (
            h1,
            λ e q.
                let at : key top ≡ k = ap key (sym q) ∙ e in
                let found : some latest ≡ some u = sym there ∙ ap (λ j. lookup j uses) at ∙ h1 in
                newer_than newer found q,
          )
    ]
  ]

  -- Taking out the first of the heap, and forgetting it, keeps the rest tracked.
  forget-IsTracked :
      (g : GlobalSkillUses) (top : Use) (heap : Heap Use)
      → IsTracked g
      → Perm (top ∷ heap.items) g.heap.items
      → IsTracked (record { heap = heap; uses = forget n rules top g.uses })
  forget-IsTracked g top heap t perm = record {
    tracked = λ k u found.
        let (was, other) = forget-other top g.uses k u found in
        let (named, there) = t.tracked k u was in
        let there' : Mem u (top ∷ heap.items) = (Perm.mem_iff perm).1 there in
        (
          named,
          ∥∥₁_elim (mem-cons.0 there') Mem-prop
              λ c. elim c [ inl same ↦ absurd (other named same) | inr rest ↦ rest ],
        );
  }

  abbrev Expired : GlobalSkillUses → Option GlobalSkillUses → Type 0
  Expired g o = (g' : GlobalSkillUses) × (o ≡ some g') × IsTracked g'

  expire-Expired :
      (fuel : ℕ) (s : Use) (g : GlobalSkillUses)
      → IsTracked g
      → length g.heap.items < fuel
      → Expired g (expire n rules fuel s g)
  unfolding expire
  expire-Expired zero s g t enough = absurd (omega arith)
  expire-Expired (suc fuel) s g t enough = elim (Bool-cases (length g.heap.items == 0)) [
    | inl empty ↦
        let (popped, peeked) = pop-empty no_use g.heap (ground arith) in
        (g, rw (peeked, expire) refl, t)
    | inr full ↦
        let (top, heap, popped, perm, peeked) = pop-Shuffled no_use g.heap (ground arith) in
        elim (Bool-cases (ltb (recharge_time n rules top) s.at)) [
          | inl over ↦
              let size = length-perm perm in
              let (g', ends, t') =
                expire-Expired fuel s (record { heap = heap; uses = forget n rules top g.uses })
                  (forget-IsTracked g top heap t perm) (omega (arith, size)) in
              (g', rw (peeked, popped, over, expire) ends, t')
          | inr yet ↦ (g, rw (peeked, yet, expire) refl, t)
        ]
  ]

  -- Whatever the rules are at this call: if the heap has every use that is remembered, and it is so
  -- under its own key, then, on fuel that is more than the heap has entries, recharge returns; the same
  -- holds again, and the use that was asked about is remembered under its key.
  pub recharge-IsTracked :
      (fuel : ℕ) (s : Use) (g : GlobalSkillUses)
      → IsTracked g
      → length g.heap.items < fuel
      → (g' : GlobalSkillUses) × (value : n.F) × (recharge n rules fuel s g ≡ some (g', value))
        × IsTracked g'
        × (lookup (key s) g'.uses ≡ some s)
  unfolding recharge under_rules
  recharge-IsTracked fuel s g t enough =
      let begun : IsTracked (under_rules n rules g) = record { tracked = t.tracked } in
      let (g1, expired, t1) = expire-Expired fuel s (under_rules n rules g) begun enough in
      let (heap, pushed, perm) = push-Shuffled no_use g1.heap s in
      (
        record { heap = heap; uses = insert (key s) s g1.uses },
        recharge_value n rules g1 s,
        rw (expired, pushed, recharge) refl,
        record {
          tracked = λ k u found. elim (Bool-cases (key s =~ k)) [
            | inl here ↦
                let at : some s ≡ some u = rw (lookup-insert k (key s) s g1.uses, here) at found in
                let it : s ≡ u = cc in
                (
                  sym (ap key it) ∙ (=~_iff (key s) k).0 here,
                  (Perm.mem_iff perm).1 (subst (λ x. Mem x (s ∷ g1.heap.items)) it mem-cons_self),
                )
            | inr other ↦
                let (named, there) =
                  t1.tracked k u (rw (lookup-insert k (key s) s g1.uses, other) at found) in
                (named, (Perm.mem_iff perm).1 (mem-cons_of_mem s there))
          ];
        },
        lookup-insert (key s) (key s) s g1.uses ∙ rw (=~_self (key s)) refl,
      )
