-- ===== src/Queue/Drained.antt =====
-- What is left in the tree when Start has returned.
use mathlib.Core.Path.{subst}
use juicemud.Base.{
  ℕ, ◌≡◌, refl, sym, inl, inr, Bool, true, false, ◌||◌, not, Option, none, some, Error, Result, ok,
  err, if◌then◌else◌, Bool-cases,
}
use juicemud.Structs.{Event}
use juicemud.Structs.Keys.{create_key}
use juicemud.Queue.{Tree, In, Queue, peek_first, push, close, is_sooner}
use juicemud.Queue.Watch.{IsWatched, peek_first-IsWatched, IsWatchedAfter, run_due-IsWatchedAfter}
use juicemud.Queue.Serving.{
  Phase, opening, peeked, assigned, turning, resting, waiting, woken, returned, broadcast,
  is_peeked, goes_on, Serving, start, assign, offset_by, after_due, turn, after_push, push_step,
  close_step, Step, looked, set_next, set_offset, turned, rested, resumed, fired, pushed, shut,
  Reach, here, next, IsApart, AllApart,
}

module _ (t : Tree) {W : Type 0} (handler : Event → W → W) where
  -- What holds of the queue while Start runs, and once it has returned without an error.
  abbrev pub IsKept : Queue t → Phase → Type 0
  IsKept q (returned (err x)) = Unit
  IsKept q (returned (ok u)) =
      (q.closed ≡ true) × (q.next_event ≡ none) × IsWatched t q.tree q.next_event
  IsKept q opening = Unit
  IsKept q (peeked (err x)) = Unit
  IsKept q (peeked (ok o)) = IsWatched t q.tree o
  IsKept q assigned = IsWatched t q.tree q.next_event
  IsKept q turning = IsWatched t q.tree q.next_event
  IsKept q resting = IsWatched t q.tree q.next_event
  IsKept q waiting = IsWatched t q.tree q.next_event
  IsKept q woken = IsWatched t q.tree q.next_event

  abbrev AllKept : Option (Serving t handler) → Type 0
  AllKept none = Unit
  AllKept (some s) = IsKept s.queue s.phase

  after_due-AllKept :
      (time sleepers : ℕ) (o : Option (Queue t × (W × Result (Unit {0}))))
      → IsWatchedAfter t handler o
      → AllKept (after_due t handler time sleepers o)
  after_due-AllKept time sleepers none h = tt
  after_due-AllKept time sleepers (some (q, (w, err x))) h = tt
  after_due-AllKept time sleepers (some (q, (w, ok u))) h = go q.closed
    where
      go : (b : Bool) → IsKept q (if b then turning else resting)
      go true = h
      go false = h

  turn-AllKept :
      (fuel : ℕ) (clock : ℕ → ℕ) (time : ℕ) (s : Serving t handler)
      → IsWatched t s.queue.tree s.queue.next_event
      → AllKept (turn t handler fuel clock time s)
  unfolding turn
  turn-AllKept fuel clock time s h = elim (Bool-cases (goes_on t s.queue)) [
    | inl on ↦
        rw (on, turn)
          (after_due-AllKept time s.sleepers _
            (run_due-IsWatchedAfter t handler fuel clock s.queue s.world h))
    | inr over ↦
        rw (over, turn)
          (let (is_closed, no_event) = ended s.queue.closed s.queue.next_event over in
            (is_closed, no_event, h))
  ]
    where
      ended :
          (b : Bool) (o : Option Event)
          → (not b || elim o [ none ↦ false | some e ↦ true ]) ≡ false
          → (b ≡ true) × (o ≡ none)
      ended true none e = (refl, refl)
      ended true (some x) e = absurd (cc)
      ended false o e = absurd (cc)

  broadcast-IsKept : (q : Queue t) (phase : Phase) → IsKept q phase → IsKept q (broadcast phase)
  broadcast-IsKept q opening h = h
  broadcast-IsKept q (peeked (err x)) h = h
  broadcast-IsKept q (peeked (ok o)) h = h
  broadcast-IsKept q assigned h = h
  broadcast-IsKept q turning h = h
  broadcast-IsKept q resting h = h
  broadcast-IsKept q waiting h = h
  broadcast-IsKept q woken h = h
  broadcast-IsKept q (returned (ok u)) h = h
  broadcast-IsKept q (returned (err x)) h = h

  close-IsKept : (q : Queue t) (phase : Phase) → IsKept q phase → IsKept (close t q) phase
  unfolding close
  close-IsKept q opening h = h
  close-IsKept q (peeked (err x)) h = h
  close-IsKept q (peeked (ok o)) h = h
  close-IsKept q assigned h = h
  close-IsKept q turning h = h
  close-IsKept q resting h = h
  close-IsKept q waiting h = h
  close-IsKept q woken h = h
  close-IsKept q (returned (ok u)) (is_closed, no_event, watched) = (refl, no_event, watched)
  close-IsKept q (returned (err x)) h = h

  after_push-IsKept :
      (r : Result (Unit {0})) (sooner : Bool) (q : Queue t) (phase : Phase)
      → IsKept q phase
      → IsKept q (after_push t handler r sooner phase)
  after_push-IsKept (err x) sooner q phase h = h
  after_push-IsKept (ok u) true q phase h = broadcast-IsKept q phase h
  after_push-IsKept (ok u) false q phase h = h

  push-closed : (n : ℕ) (event : Event) (q : Queue t) → q.closed ≡ true → (push t n event q).0 ≡ q
  unfolding push
  push-closed n event q is_closed = rw (is_closed, push) refl

  -- The one thing the tree does not promise by itself: a Set that fails adds no event.
  module _
      (failed : (db : t.Db) (e x : Event) (y : Error)
        → (t.set db e).1 ≡ err y
        → In x (t.events (t.set db e).0)
        → In x (t.events db)) where
    push-IsWatched :
        (n : ℕ) (event : Event) (q : Queue t)
        → IsWatched t q.tree q.next_event
        → let q' = (push t n event q).0 in IsWatched t q'.tree q'.next_event
    unfolding push
    push-IsWatched n event q h = elim (Bool-cases q.closed) [
      | inl is_closed ↦ rw (is_closed, push) h
      | inr is_open ↦ go is_open (t.set q.tree ev).1 refl
    ]
      where
        ev : Event
        ev = create_key event n

        unstored :
            (o : Option Event) (y : Error)
            → (t.set q.tree ev).1 ≡ err y
            → IsWatched t q.tree o
            → IsWatched t (t.set q.tree ev).0 o
        unstored none y e k = λ x at. k x (failed q.tree ev x y e at)
        unstored (some a) y e k = tt

        stored :
            (o : Option Event)
            → IsWatched t (t.set q.tree ev).0 (if is_sooner t ev o then some ev else o)
        stored none = tt
        stored (some a) = elim (Bool-cases (is_sooner t ev (some a))) [
          | inl sooner ↦ rw sooner tt
          | inr later ↦ rw later tt
        ]

        go :
            q.closed ≡ false
            → (r : Result (Unit {0})) → (t.set q.tree ev).1 ≡ r
            → let q' = (push t n event q).0 in IsWatched t q'.tree q'.next_event
        go is_open (err y) e = rw (is_open, e, push) (unstored q.next_event y e h)
        go is_open (ok u) e = rw (is_open, e, push) (stored q.next_event)

    push-IsKept :
        (n : ℕ) (event : Event) (q : Queue t) (phase : Phase)
        → is_peeked phase ≡ false
        → IsKept q phase
        → IsKept (push t n event q).0 phase
    unfolding push
    push-IsKept n event q opening apart h = tt
    push-IsKept n event q (peeked r) apart h = absurd (cc)
    push-IsKept n event q assigned apart h = push-IsWatched n event q h
    push-IsKept n event q turning apart h = push-IsWatched n event q h
    push-IsKept n event q resting apart h = push-IsWatched n event q h
    push-IsKept n event q waiting apart h = push-IsWatched n event q h
    push-IsKept n event q woken apart h = push-IsWatched n event q h
    push-IsKept n event q (returned (ok u)) apart h =
        subst (λ q'. IsKept q' (returned (ok u))) (sym (push-closed n event q h.0)) h
    push-IsKept n event q (returned (err x)) apart h = tt

    pub IsKept-subst : (q : Queue t) (a b : Phase) → a ≡ b → IsKept q a → IsKept q b
    IsKept-subst q a b e h = subst (IsKept q) e h

    peeked-IsKept :
        (q : Queue t) (r : Result (Option Event)) → peek_first t q.tree ≡ r → IsKept q (peeked r)
    peeked-IsKept q (err x) found = tt
    peeked-IsKept q (ok o) found = peek_first-IsWatched t q.tree o found

    assign-IsKept :
        (s : Serving t handler) (r : Result (Option Event))
        → IsKept s.queue (peeked r)
        → IsKept (assign t handler r s).queue (assign t handler r s).phase
    assign-IsKept s (err x) h = tt
    assign-IsKept s (ok o) h = h

    offset_by-IsKept :
        (q : Queue t) (o : Option Event)
        → IsWatched t q.tree q.next_event
        → IsWatched t (offset_by t handler o q).tree (offset_by t handler o q).next_event
    offset_by-IsKept q none h = h
    offset_by-IsKept q (some e) h = h

    Step-IsKept :
        {s s' : Serving t handler} (step : Step t handler s s')
        → IsApart t handler step
        → IsKept s.queue s.phase
        → IsKept s'.queue s'.phase
    unfolding push_step close_step
    Step-IsKept (looked s at) apart h = peeked-IsKept s.queue (peek_first t s.queue.tree) refl
    Step-IsKept (set_next s r at) apart h =
        assign-IsKept s r (IsKept-subst s.queue s.phase (peeked r) at h)
    Step-IsKept (set_offset s at) apart h =
        offset_by-IsKept s.queue s.queue.next_event (IsKept-subst s.queue s.phase assigned at h)
    Step-IsKept (turned fuel clock time s s' at ends) apart h =
        subst AllKept ends
          (turn-AllKept fuel clock time s (IsKept-subst s.queue s.phase turning at h))
    Step-IsKept (rested s at) apart h = IsKept-subst s.queue s.phase resting at h
    Step-IsKept (resumed s at) apart h = IsKept-subst s.queue s.phase woken at h
    Step-IsKept (fired s n some_sleep) apart h = broadcast-IsKept s.queue s.phase h
    Step-IsKept (pushed n event s unlocked) apart h =
        after_push-IsKept (push t n event s.queue).1 _ (push t n event s.queue).0 s.phase
          (push-IsKept n event s.queue s.phase apart h)
    Step-IsKept (shut s unlocked) apart h =
        broadcast-IsKept (close t s.queue) s.phase (close-IsKept s.queue s.phase h)

    pub Reach-IsKept :
        {s0 s : Serving t handler}
        → IsKept s0.queue s0.phase
        → (r : Reach t handler s0 s) → AllApart t handler r
        → IsKept s.queue s.phase
    Reach-IsKept h here apart = h
    Reach-IsKept h (next r step) (before, apart) = Step-IsKept step apart (Reach-IsKept h r before)

    -- If a Set that fails adds no event, then, in every order of the steps of Start, of the
    -- goroutines it starts, and of calls of Push and Close by others, in which no Push falls between the
    -- return of peekFirst at the beginning of Start and the assignment of what it gave: where Start has
    -- returned without an error, the queue is closed and the tree holds no event.
    pub Reach-drained :
        (q : Queue t) (w : W) (s : Serving t handler)
        → (r : Reach t handler (start t handler q w) s) → AllApart t handler r
        → s.phase ≡ returned (ok tt)
        → (s.queue.closed ≡ true) × ((x : Event) → In x (t.events s.queue.tree) → ⊥)
    Reach-drained q w s r apart at =
        let (is_closed, no_event, watched) =
          IsKept-subst s.queue s.phase (returned (ok tt)) at (Reach-IsKept tt r apart) in
        (is_closed, subst (IsWatched t s.queue.tree) no_event watched)
