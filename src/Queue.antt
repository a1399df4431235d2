-- ===== src/Queue.antt =====
-- storage/queue/queue.go: events in the order of their times, in a tree of tkrzw. The tree is the
-- parameter Tree: its events, and what First, Set and Del do to them. A handler runs while the lock
-- of the queue is held, so that it does not push.
pub mod Due
pub mod Loop
pub mod Memory
pub mod Serving
pub mod Watch
pub mod Drained
pub mod Phases
pub mod Handled
mod Tests
use juicemud.Base.{
  ℕ, zero, suc, ◌+◌, ◌%◌, ◌^◌, ◌≡◌, Bool, true, false, List, [], ◌∷◌, Option, none, some, Text,
  ◌=~◌, Error, not_exist, invalid, Result, ok, err, is_not_exist, if◌then◌else◌, ltb, leb, ◌⊎◌,
}
use juicemud.Structs.{Event}
use juicemud.Structs.Keys.{create_key, key_lt}

-- The events without that of a key.
abbrev pub without : Text → List Event → List Event
without k [] = []
without k (e ∷ es) = let rest = without k es in if e.key =~ k then rest else e ∷ rest

-- The event is one of the list.
abbrev pub In : Event → List Event → Type 0
In x [] = ⊥
In x (e ∷ es) = (x ≡ e) ⊎ In x es

-- What First may give: an event whose key none is before, or os.ErrNotExist if there is none.
abbrev pub IsFirst : List Event → Result Event → Type 0
IsFirst es (ok e) = In e es × ((e' : Event) → In e' es → key_lt e'.key e.key ≡ false)
IsFirst es (err x) = is_not_exist x ≡ true → es ≡ []

pub record Tree : Type 1 where
  pub Db : Type 0
  pub events : Db → List Event
  pub first : Db → Result Event
  pub set : Db → Event → Db × Result (Unit {0})
  pub del : Db → Text → Db × Result (Unit {0})
  pub first_events : (db : Db) → IsFirst (events db) (first db)
  pub set_events :
      (db : Db) (e x : Event)
      → (set db e).1 ≡ ok tt
      → In x (events (set db e).0)
      → (x ≡ e) ⊎ In x (events db)
  pub del_events :
      (db : Db) (k : Text) → (del db k).1 ≡ ok tt → events (del db k).0 ≡ without k (events db)

module _ (t : Tree) where
  open t use {Db, events, first}

  pub record Queue : Type 0 where
    pub tree : Db
    pub closed : Bool
    pub next_event : Option Event
    pub offset : ℕ

  abbrev unless_missing : Result Event → Result (Option Event)
  unless_missing (ok e) = ok (some e)
  unless_missing (err x) = if is_not_exist x then ok none else err x

  -- Queue.peekFirst
  unfoldable pub peek_first : Db → Result (Option Event)
  peek_first db = unless_missing (first db)

  -- Queue.now, where the clock reads `time`
  abbrev pub now : Queue → ℕ → ℕ
  now q time = (time + q.offset) % 2 ^ 64

  -- `q.nextEvent == nil || ev.At < q.nextEvent.At`
  abbrev pub is_sooner : Event → Option Event → Bool
  is_sooner ev none = true
  is_sooner ev (some e) = ltb ev.at e.at

  -- Queue.Push, with the number that Increment gives
  unfoldable pub push : ℕ → Event → Queue → Queue × Result (Unit {0})
  unfolding create_key
  push event_counter event q =
      let ev = create_key event event_counter in
      let (tree, stored) = t.set q.tree ev in
      let q' : Queue = record q { tree = tree } in
      if q.closed then (q, err invalid) else elim stored [
        | err e ↦ (q', err e)
        | ok _ ↦ (
          record q' { next_event = if is_sooner ev q.next_event then some ev else q.next_event },
          ok tt,
        )
      ]

  -- Queue.Close
  unfoldable pub close : Queue → Queue
  close q = record q { closed = true }

  -- The end of one turn: the event is deleted, and the next one is looked up.
  abbrev pub after_event : Event → Queue → Queue × Result (Unit {0})
  after_event e q =
      let (tree, gone) = t.del q.tree e.key in
      let q' : Queue = record q { tree = tree } in
      elim gone [
        | err x ↦ (q', err x)
        | ok _ ↦ elim (peek_first tree) [
          | err x ↦ (record q' { next_event = none }, err x)
          | ok o ↦ (record q' { next_event = o }, ok tt)
        ]
      ]

  module _ {W : Type 0} (handler : Event → W → W) where
    -- The inner loop of Queue.Start, on fuel; the clock reads `clock n` where `n` is left of it.
    -- `none` means that the fuel ran out.
    unfoldable pub run_due : ℕ → (ℕ → ℕ) → Queue → W → Option (Queue × (W × Result (Unit {0})))
    unfolding peek_first
    run_due zero clock q w = none
    run_due (suc fuel) clock q w = elim (q.next_event) [
      | none ↦ some (q, (w, ok tt))
      | some e ↦
          let (q', r) = after_event e q in
          let rest : Option (Queue × (W × Result (Unit {0}))) = elim r [
            | err x ↦ some (q', (handler e w, err x))
            | ok _ ↦ run_due fuel clock q' (handler e w)
          ] in
          if leb e.at (now q (clock fuel)) then rest else some (q, (w, ok tt))
    ]
