-- ===== src/Queue/Loop.antt =====
-- The inner loop of Start comes to an end, and leaves no event that is due.
use mathlib.Core.Path.{subst}
use juicemud.Base.{
  ℕ, zero, suc, ◌<◌, ◌≤◌, ◌≡◌, refl, sym, ap, inl, inr, true, List, [], ◌∷◌, Option, none, some,
  Text, ◌=~◌, =~_iff, Result, ok, err, is_not_exist, leb, arith, Bool-cases, length,
}
use juicemud.Structs.{Event}
use juicemud.Queue.{
  Tree, In, IsFirst, Queue, peek_first, without, unless_missing, now, after_event, run_due,
}
use juicemud.Queue.Due.{IsKeyed, keyed-le}

without-In : (x : Event) (k : Text) (es : List Event) → In x (without k es) → In x es
without-In x k [] h = h
without-In x k (e ∷ es) h = elim (Bool-cases (e.key =~ k)) [
  | inl same ↦ inr (without-In x k es (rw same at h))
  | inr differs ↦ elim (rw differs at h) [
    | inl here ↦ inl here
    | inr there ↦ inr (without-In x k es there)
  ]
]

length-without_le : (k : Text) (es : List Event) → length (without k es) ≤ length es
length-without_le k [] = omega arith
length-without_le k (e ∷ es) = ground (arith, length-without_le k es)

length-without : (x : Event) (es : List Event) → In x es → length (without x.key es) < length es
length-without x [] h = absurd h
length-without x (e ∷ es) (inl same) =
    let k : e.key ≡ x.key = sym (ap (λ y. y.key) same) in
    ground (arith, length-without_le x.key es, =~_iff e.key x.key)
length-without x (e ∷ es) (inr there) =
    ground (arith, length-without x es there, length-without_le x.key es)

module _ (t : Tree) where
  -- The next event is one of the tree that no other is before, or there is no event.
  abbrev pub IsNext : t.Db → Option Event → Type 0
  IsNext db none = t.events db ≡ []
  IsNext db (some e) = In e (t.events db) × ((x : Event) → In x (t.events db) → e.at ≤ x.at)

  abbrev pub AllKeyed : t.Db → Type 0
  AllKeyed db = (x : Event) → In x (t.events db) → IsKeyed x

  peek_first-IsNext :
      (db : t.Db) (o : Option Event) → AllKeyed db → peek_first t db ≡ ok o → IsNext db o
  unfolding peek_first
  peek_first-IsNext db o keyed h = go (t.first db) (t.first_events db) h
    where
      go : (r : Result Event) → IsFirst (t.events db) r → unless_missing t r ≡ ok o → IsNext db o
      go (ok e) (there, least) found =
          let same : some e ≡ o = ground arith in
          subst (IsNext db) same
            (there, λ x at. keyed-le e x (keyed e there) (keyed x at) (least x at))
      go (err y) empty found = elim (Bool-cases (is_not_exist y)) [
        | inl missing ↦
            let same : none ≡ o = ground (
              arith,
              let e : ◌≡◌ {A = Result (Option Event)} (ok none) (ok o) = rw missing at found in e,
            ) in
            subst (IsNext db) same (empty missing)
        | inr failed ↦
            absurd
              (let bad : ◌≡◌ {A = Result (Option Event)} (err y) (ok o) = rw failed at found in cc)
      ]

  pub after_event-ok :
      (e : Event) (q : Queue t)
      → (after_event t e q).1 ≡ ok tt
      → let q' = (after_event t e q).0 in
        (t.events q'.tree ≡ without e.key (t.events q.tree))
        × (peek_first t q'.tree ≡ ok q'.next_event)
  after_event-ok e q h = go (t.del q.tree e.key).1 refl (peek_first t (t.del q.tree e.key).0) refl h
    where
      go :
          (r : Result (Unit {0}))
          → (t.del q.tree e.key).1 ≡ r
          → (o : Result (Option Event)) → peek_first t (t.del q.tree e.key).0 ≡ o
          → (after_event t e q).1 ≡ ok tt
          → let q' = (after_event t e q).0 in
            (t.events q'.tree ≡ without e.key (t.events q.tree))
            × (peek_first t q'.tree ≡ ok q'.next_event)
      go (ok u) gone (ok o) found done =
          rw (gone, found, after_event) (t.del_events q.tree e.key gone, found)
      go (ok u) gone (err x) found done =
          absurd (let bad : err x ≡ ok tt = rw (gone, found, after_event) at done in cc)
      go (err x) gone o found done =
          absurd (let bad : err x ≡ ok tt = rw (gone, after_event) at done in cc)

  module _ {W : Type 0} (handler : Event → W → W) (clock : ℕ → ℕ) where
    -- The turns that the loop makes, from a state with its fuel to another: in each, the next event is
    -- due by the clock, it is handled and deleted, and the one after it is found.
    pub data Turns (m : ℕ) (q' : Queue t) (w' : W) : ℕ → Queue t → W → Type 0 where
      stay : Turns m q' w' m q' w'
      turned :
          {fuel : ℕ} {q : Queue t} {w : W} (e : Event)
          → q.next_event ≡ some e
          → e.at ≤ now t q (clock fuel)
          → (after_event t e q).1 ≡ ok tt
          → Turns m q' w' fuel (after_event t e q).0 (handler e w)
          → Turns m q' w' (suc fuel) q w

    -- The loop ends with an error; or, after some turns, in a state that it returns as it is, in which
    -- no event of the tree is due by the clock as it is then read.
    abbrev pub Ends : ℕ → Queue t → W → Type 0
    Ends fuel q w =
        (q' : Queue t) × (w' : W) × (r : Result (Unit {0})) × (run_due t handler fuel clock q w
          ≡ some (q', (w', r)))
        × (r ≡ ok tt
            → (n : ℕ) × Turns (suc n) q' w' fuel q w
              × ((x : Event) → In x (t.events q'.tree) → now t q' (clock n) < x.at))

    -- If the next event is the earliest of the tree, every key was made by CreateKey at a time below
    -- 2 ^ 63, and the fuel is more than the events of the tree, then the inner loop of Start comes to an
    -- end; and if it returns no error, it has handled and deleted events that were due, one after the
    -- other, and by the clock as it was read after them no event that is left in the tree is due.
    pub run_due-Ends :
        (fuel : ℕ) (q : Queue t) (w : W)
        → AllKeyed q.tree
        → IsNext q.tree q.next_event
        → length (t.events q.tree) < fuel
        → Ends fuel q w
    unfolding run_due
    run_due-Ends zero q w keyed next enough = absurd (ground arith)
    run_due-Ends (suc fuel) q w keyed next enough =
        go q.next_event next (λ q' w' a b c. run_due-Ends fuel q' w' a b c)
      where
        Rest : Type 0
        Rest =
            (q' : Queue t) (w' : W)
            → AllKeyed q'.tree
            → IsNext q'.tree q'.next_event
            → length (t.events q'.tree) < fuel
            → Ends fuel q' w'

        turn :
            (e : Event)
            → IsNext q.tree (some e)
            → leb e.at (now t q (clock fuel)) ≡ true
            → Rest
            → (r : Result (Unit {0})) → (after_event t e (record q { next_event = some e })).1 ≡ r
            → Ends (suc fuel) (record q { next_event = some e }) w
        turn e first due rest (err x) f = (
          (after_event t e (record q { next_event = some e })).0,
          handler e w,
          err x,
          rw (due, f, run_due) refl,
          λ done. absurd (cc),
        )
        turn e first due rest (ok u) f =
            let q1 : Queue t = record q { next_event = some e } in
            let q' = (after_event t e q1).0 in
            let (left, found) = after_event-ok e q1 f in
            let keyed' : AllKeyed q'.tree =
              λ x at. keyed x (without-In x e.key _ (subst (In x) left at)) in
            let shorter = length-without e (t.events q.tree) first.0 in
            let same = ap length left in
            let (q2, w2, r, ends, none_due) =
              rest q' (handler e w) keyed' (peek_first-IsNext q'.tree q'.next_event keyed' found)
                (omega arith) in
            (
              q2,
              w2,
              r,
              rw (due, f, run_due) ends,
              λ done.
                  let (n, turns, left_over) = none_due done in
                  (n, turned e refl (ground (arith, due)) f turns, left_over),
            )

        go :
            (o : Option Event)
            → IsNext q.tree o
            → Rest
            → Ends (suc fuel) (record q { next_event = o }) w
        go none empty rest = (
          record q { next_event = none },
          w,
          ok tt,
          refl,
          λ _. (fuel, stay, λ x at. absurd (subst (In x) empty at)),
        )
        go (some e) first rest = elim (Bool-cases (leb e.at (now t q (clock fuel)))) [
          | inl due ↦
              turn e first due rest (after_event t e (record q { next_event = some e })).1 refl
          | inr later ↦ (
            record q { next_event = some e },
            w,
            ok tt,
            rw (later, run_due) refl,
            λ _. (fuel, stay, λ x at. let le = first.1 x at in ground (arith, le)),
          )
        ]
