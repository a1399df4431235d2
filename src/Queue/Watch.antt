-- ===== src/Queue/Watch.antt =====
-- While Start runs, there is a next event or the tree is empty.
use mathlib.Core.Path.{subst}
use juicemud.Base.{
  ℕ, zero, suc, ◌≡◌, refl, inl, inr, Option, none, some, Result, ok, err, is_not_exist, leb,
  Bool-cases,
}
use juicemud.Structs.{Event}
use juicemud.Queue.{Tree, In, IsFirst, Queue, peek_first, unless_missing, now, after_event, run_due}
use juicemud.Queue.Loop.{after_event-ok}

module _ (t : Tree) where
  -- There is a next event, or the tree is empty.
  abbrev pub IsWatched : t.Db → Option Event → Type 0
  IsWatched db none = (x : Event) → In x (t.events db) → ⊥
  IsWatched db (some e) = Unit

  pub peek_first-IsWatched :
      (db : t.Db) (o : Option Event) → peek_first t db ≡ ok o → IsWatched db o
  unfolding peek_first
  peek_first-IsWatched db (some e) found = tt
  peek_first-IsWatched db none found = λ x at. go x at (t.first db) (t.first_events db) found
    where
      go :
          (x : Event)
          → In x (t.events db)
          → (r : Result Event) → IsFirst (t.events db) r
          → unless_missing t r ≡ ok none
          → ⊥
      go x at (ok e) first r = absurd (cc)
      go x at (err y) empty r = elim (Bool-cases (is_not_exist y)) [
        | inl missing ↦ subst (λ es. In x es) (empty missing) at
        | inr failed ↦
            let bad : ◌≡◌ {A = Result (Option Event)} (err y) (ok none) = rw failed at r in
            absurd (cc)
      ]

  module _ {W : Type 0} (handler : Event → W → W) where
    -- The inner loop, if it ends without an error, ends with such a queue.
    abbrev pub IsWatchedAfter : Option (Queue t × (W × Result (Unit {0}))) → Type 0
    IsWatchedAfter none = Unit
    IsWatchedAfter (some (q, (w, err x))) = Unit
    IsWatchedAfter (some (q, (w, ok u))) = IsWatched q.tree q.next_event

    pub run_due-IsWatchedAfter :
        (fuel : ℕ) (clock : ℕ → ℕ) (q : Queue t) (w : W)
        → IsWatched q.tree q.next_event
        → IsWatchedAfter (run_due t handler fuel clock q w)
    unfolding run_due
    run_due-IsWatchedAfter zero clock q w h = tt
    run_due-IsWatchedAfter (suc fuel) clock q w h =
        go q.next_event h (λ q' w' k. run_due-IsWatchedAfter fuel clock q' w' k)
      where
        Rest : Type 0
        Rest =
            (q' : Queue t) (w' : W)
            → IsWatched q'.tree q'.next_event
            → IsWatchedAfter (run_due t handler fuel clock q' w')

        at_event : Event → Queue t
        at_event e = record q { next_event = some e }

        turned_on :
            (e : Event)
            → Rest
            → (r : Result (Unit {0})) → (after_event t e (at_event e)).1 ≡ r
            → let q' = (after_event t e (at_event e)).0 in
              IsWatchedAfter (elim r [
                | err x ↦ some (q', (handler e w, err x))
                | ok _ ↦ run_due t handler fuel clock q' (handler e w)
              ])
        turned_on e rest (err x) same = tt
        turned_on e rest (ok u) same =
            let q' = (after_event t e (at_event e)).0 in
            rest q' (handler e w)
              (peek_first-IsWatched q'.tree q'.next_event (after_event-ok t e (at_event e) same).1)

        go :
            (o : Option Event)
            → IsWatched q.tree o
            → Rest
            → IsWatchedAfter (run_due t handler (suc fuel) clock (record q { next_event = o }) w)
        go none k rest = k
        go (some e) k rest = elim (Bool-cases (leb e.at (now t q (clock fuel)))) [
          | inl due ↦ rw (due, run_due) (turned_on e rest (after_event t e (at_event e)).1 refl)
          | inr later ↦ rw (later, run_due) tt
        ]
