-- ===== src/Sync/Ascent.antt =====
-- The values that calls of Increment return: later ones are greater, and no two callers have one.
use juicemud.Base.{
  ℕ, ◌<◌, ◌≤◌, ◌≡◌, ◌≢◌, refl, sym, ap, ◌∙◌, inl, inr, ◌&&◌, List, [], ◌∷◌, Option, none, some,
  ◌==◌, ltb, arith, Bool-cases,
}
use juicemud.Sync.Clock.{
  Pc, top, read, loaded, swapped, returned, World, move, swap_step, Step, read_clock, load,
  compare_and_swap, give, call_again, start, Reach, here, next,
}

-- The value that a caller has taken.
abbrev pub holds : Pc → Option ℕ
holds top = none
holds (read now) = none
holds (loaded now old) = none
holds (swapped v) = some v
holds (returned v) = some v

-- If the caller has taken a value, it is above one number and not above another.
abbrev IsWithin : ℕ → ℕ → Pc → Type 0
IsWithin low high p = (v : ℕ) → holds p ≡ some v → (low < v) × (v ≤ high)

abbrev AreDistinct : Pc → Pc → Type 0
AreDistinct p q = (v x : ℕ) → holds p ≡ some v → holds q ≡ some x → v ≢ x

abbrev AllAtMost : ℕ → List ℕ → Type 0
AllAtMost b [] = Unit
AllAtMost b (x ∷ xs) = (x ≤ b) × AllAtMost b xs

-- Every one of the values is below this one.
abbrev pub AllBelow : ℕ → List ℕ → Type 0
AllBelow b [] = Unit
AllBelow b (x ∷ xs) = (x < b) × AllBelow b xs

AllAtMost-le : (a b : ℕ) (xs : List ℕ) → a ≤ b → AllAtMost a xs → AllAtMost b xs
AllAtMost-le a b [] le h = tt
AllAtMost-le a b (x ∷ xs) le h = (omega (arith, h.0, le), AllAtMost-le a b xs le h.1)

AllBelow-lt : (a b : ℕ) (xs : List ℕ) → a < b → AllAtMost a xs → AllBelow b xs
AllBelow-lt a b [] lt h = tt
AllBelow-lt a b (x ∷ xs) lt h = (omega (arith, h.0, lt), AllBelow-lt a b xs lt h.1)

nothing : (p : Pc) (v : ℕ) → holds p ≡ none → holds p ≡ some v → ⊥
nothing p v h k = let bad : ◌≡◌ {A = Option ℕ} none (some v) = sym h ∙ k in absurd (cc)

-- What holds of the caller that moves, and of it before if it is another one.
moved :
    (Q : Pc → Type 0) (pc : ℕ → Pc) (u t : ℕ) (p : Pc)
    → (u ≡ t → Q p)
    → Q (pc t)
    → Q (move pc u p t)
moved Q pc u t p new old = elim (Bool-cases (u == t)) [
  | inl same ↦ rw same (new (ground arith))
  | inr other ↦ rw other old
]

moved_two :
    (Q : Pc → Pc → Type 0) (pc : ℕ → Pc) (u t t' : ℕ) (p : Pc)
    → t ≢ t'
    → (u ≡ t → Q p (pc t'))
    → (u ≡ t' → Q (pc t) p)
    → Q (pc t) (pc t')
    → Q (move pc u p t) (move pc u p t')
moved_two Q pc u t t' p apart left right old = elim (Bool-cases (u == t)) [
  | inl same ↦ elim (Bool-cases (u == t')) [
    | inl both ↦ absurd (apart (ground (arith, same, both)))
    | inr other ↦ rw (same, other) (left (ground arith))
  ]
  | inr not_t ↦ elim (Bool-cases (u == t')) [
    | inl same ↦ rw (not_t, same) (right (ground arith))
    | inr other ↦ rw (not_t, other) old
  ]
]

IsWithin-none : (low high : ℕ) (p : Pc) → holds p ≡ none → IsWithin low high p
IsWithin-none low high p h v k = absurd (nothing p v h k)

swap_step-IsWithin :
    (w : World) (u now old t b : ℕ)
    → b ≤ w.previous
    → IsWithin b w.previous (w.pc t)
    → (w.previous ≤ (swap_step w u now old).previous)
      × IsWithin b (swap_step w u now old).previous ((swap_step w u now old).pc t)
unfolding swap_step
swap_step-IsWithin w u now old t b le h = elim (Bool-cases (ltb old now && w.previous == old)) [
  | inl wins ↦
      rw (wins, swap_step)
        (
          ground (arith, wins),
          moved (IsWithin b now) w.pc u t (swapped now)
              (λ _ v k. let same : now ≡ v = ground arith in ground (arith, wins, same))
              (λ v k. let (lo, hi) = h v k in (lo, ground (arith, wins, hi))),
        )
  | inr fails ↦
      rw (fails, swap_step)
        (
          omega arith,
          moved (IsWithin b w.previous) w.pc u t top (λ _. IsWithin-none _ _ top refl) h,
        )
]

Step-IsWithin :
    {w w' : World}
    → Step w w'
    → (t b : ℕ) → b ≤ w.previous
    → IsWithin b w.previous (w.pc t)
    → (w.previous ≤ w'.previous) × IsWithin b w'.previous (w'.pc t)
Step-IsWithin (read_clock w u now at) t b le h = (
  omega arith,
  moved (IsWithin b w.previous) w.pc u t _ (λ _. IsWithin-none _ _ (read now) refl) h,
)
Step-IsWithin (load w u now at) t b le h = (
  omega arith,
  moved (IsWithin b w.previous) w.pc u t _ (λ _. IsWithin-none _ _ (loaded now w.previous) refl) h,
)
Step-IsWithin (compare_and_swap w u now old at) t b le h = swap_step-IsWithin w u now old t b le h
Step-IsWithin (give w u now at) t b le h = (
  omega arith,
  moved (IsWithin b w.previous) w.pc u t (returned now)
      (λ same v k. h v (ap (λ j. holds (w.pc j)) (sym same) ∙ ap holds at ∙ k)) h,
)
Step-IsWithin (call_again w u now at) t b le h =
    (omega arith, moved (IsWithin b w.previous) w.pc u t _ (λ _. IsWithin-none _ _ top refl) h)

Reach-IsWithin :
    {w w' : World}
    → Reach w w'
    → (t b : ℕ) → b ≤ w.previous
    → IsWithin b w.previous (w.pc t)
    → (b ≤ w'.previous) × IsWithin b w'.previous (w'.pc t)
Reach-IsWithin here t b le h = (le, h)
Reach-IsWithin (next r step) t b le h =
    let (le', h') = Reach-IsWithin r t b le h in
    let (grows, h2) = Step-IsWithin step t b le' h' in (omega (arith, le', grows), h2)

started : {w : World} → Reach start w → (t : ℕ) → IsWithin 0 w.previous (w.pc t)
started r t = (Reach-IsWithin r t 0 (omega arith) (IsWithin-none 0 0 top refl)).1

Step-AllAtMost :
    {w w' : World}
    → Step w w'
    → ((t : ℕ) → IsWithin 0 w.previous (w.pc t))
    → AllAtMost w.previous w.given
    → AllAtMost w'.previous w'.given
unfolding swap_step
Step-AllAtMost (read_clock w u now at) within h = h
Step-AllAtMost (load w u now at) within h = h
Step-AllAtMost (compare_and_swap w u now old at) within h =
    elim (Bool-cases (ltb old now && w.previous == old)) [
      | inl wins ↦
          rw (wins, swap_step) (AllAtMost-le w.previous now w.given (ground (arith, wins)) h)
      | inr fails ↦ rw (fails, swap_step) h
    ]
Step-AllAtMost (give w u now at) within h = ((within u now (ap holds at)).1, h)
Step-AllAtMost (call_again w u now at) within h = h

Reach-AllAtMost : {w : World} → Reach start w → AllAtMost w.previous w.given
Reach-AllAtMost here = tt
Reach-AllAtMost (next r step) = Step-AllAtMost step (started r) (Reach-AllAtMost r)

-- However the calls of Increment interleave, and whatever the clock reads: a call that is at the top of
-- its loop returns, if it does, a value above all the values that calls have returned by then.
pub Reach-above :
    (w w' : World) (t v : ℕ)
    → Reach start w
    → w.pc t ≡ top
    → Reach w w'
    → w'.pc t ≡ returned v
    → AllBelow v w.given
Reach-above w w' t v before at after done =
    let within =
      (Reach-IsWithin after t w.previous (omega arith)
        (λ x k. absurd (nothing (w.pc t) x (ap holds at) k))).1 in
    let (lo, hi) = within v (ap holds done) in
    AllBelow-lt w.previous v w.given lo (Reach-AllAtMost before)

Step-AreDistinct :
    {w w' : World}
    → Step w w'
    → ((t : ℕ) → IsWithin 0 w.previous (w.pc t))
    → ((t t' : ℕ) → t ≢ t' → AreDistinct (w.pc t) (w.pc t'))
    → (t t' : ℕ) → t ≢ t'
    → AreDistinct (w'.pc t) (w'.pc t')
unfolding swap_step
Step-AreDistinct (read_clock w u now at) within h t t' apart =
    moved_two AreDistinct w.pc u t t' (read now) apart
      (λ _ v x k l. absurd (nothing (read now) v refl k))
      (λ _ v x k l. absurd (nothing (read now) x refl l)) (h t t' apart)
Step-AreDistinct (load w u now at) within h t t' apart =
    moved_two AreDistinct w.pc u t t' (loaded now w.previous) apart
      (λ _ v x k l. absurd (nothing (loaded now w.previous) v refl k))
      (λ _ v x k l. absurd (nothing (loaded now w.previous) x refl l)) (h t t' apart)
Step-AreDistinct (compare_and_swap w u now old at) within h t t' apart =
    elim (Bool-cases (ltb old now && w.previous == old)) [
      | inl wins ↦
          rw (wins, swap_step)
            (moved_two AreDistinct w.pc u t t' (swapped now) apart
              (λ _ v x k l.
                let same : now ≡ v = ground arith in
                let (lo, hi) = within t' x l in ground (arith, wins, same, hi))
              (λ _ v x k l.
                let same : now ≡ x = ground arith in
                let (lo, hi) = within t v k in ground (arith, wins, same, hi))
              (h t t' apart))
      | inr fails ↦
          rw (fails, swap_step)
            (moved_two AreDistinct w.pc u t t' top apart
              (λ _ v x k l. absurd (nothing top v refl k))
              (λ _ v x k l. absurd (nothing top x refl l)) (h t t' apart))
    ]
Step-AreDistinct (give w u now at) within h t t' apart =
    moved_two AreDistinct w.pc u t t' (returned now) apart
      (λ same v x k l. h t t' apart v x (ap (λ j. holds (w.pc j)) (sym same) ∙ ap holds at ∙ k) l)
      (λ same v x k l. h t t' apart v x k (ap (λ j. holds (w.pc j)) (sym same) ∙ ap holds at ∙ l))
      (h t t' apart)
Step-AreDistinct (call_again w u now at) within h t t' apart =
    moved_two AreDistinct w.pc u t t' top apart (λ _ v x k l. absurd (nothing top v refl k))
      (λ _ v x k l. absurd (nothing top x refl l)) (h t t' apart)

Reach-AreDistinct :
    {w : World} → Reach start w → (t t' : ℕ) → t ≢ t' → AreDistinct (w.pc t) (w.pc t')
Reach-AreDistinct here t t' apart = λ v x k l. absurd (nothing top v refl k)
Reach-AreDistinct (next r step) t t' apart =
    Step-AreDistinct step (started r) (Reach-AreDistinct r) t t' apart

-- However the calls of Increment interleave, and whatever the clock reads, no two callers have got one
-- value from their last calls.
pub Reach-distinct :
    (w : World) (t t' v x : ℕ)
    → Reach start w
    → t ≢ t'
    → w.pc t ≡ returned v
    → w.pc t' ≡ returned x
    → v ≢ x
Reach-distinct w t t' v x r apart at at' =
    Reach-AreDistinct r t t' apart v x (ap holds at) (ap holds at')
