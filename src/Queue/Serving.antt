-- ===== src/Queue/Serving.antt =====
-- storage/queue/queue.go: Start, with the goroutines that wake it, as a step relation. Start has the
-- lock of the queue from `q.cond.L.Lock()` on, but in Wait; it has not when it looks for the first event,
-- sets the next event to it, and sets the offset, so that Push and Close may come between those.
use juicemud.Base.{
  ℕ, suc, ◌+◌, ◌%◌, ◌^◌, ◌≡◌, Bool, true, false, ◌&&◌, ◌||◌, not, Option, none, some, Result, ok,
  err, if◌then◌else◌, ltb, ◌-◌,
}
use juicemud.Structs.{Event}
use juicemud.Structs.Keys.{create_key}
use juicemud.Queue.{Tree, Queue, peek_first, now, is_sooner, push, close, run_due}

-- Where Start is: at its beginning; with what peekFirst gave; with the next event set to that; at the
-- test of its outer loop; before Wait; in Wait; about to take the lock, at first or when woken; or at its
-- end.
pub data Phase : Type 0 where
  opening : Phase
  peeked : Result (Option Event) → Phase
  assigned : Phase
  turning : Phase
  resting : Phase
  waiting : Phase
  woken : Phase
  returned : Result (Unit {0}) → Phase

-- `q.cond.Broadcast()`
abbrev pub broadcast : Phase → Phase
broadcast opening = opening
broadcast (peeked r) = peeked r
broadcast assigned = assigned
broadcast turning = turning
broadcast resting = resting
broadcast waiting = woken
broadcast woken = woken
broadcast (returned r) = returned r

-- The phases in which another goroutine may take the lock.
abbrev pub is_unlocked : Phase → Bool
is_unlocked opening = true
is_unlocked (peeked r) = true
is_unlocked assigned = true
is_unlocked turning = false
is_unlocked resting = false
is_unlocked waiting = true
is_unlocked woken = true
is_unlocked (returned r) = true

-- Whether peekFirst has returned, but what it gave is not yet the next event.
abbrev pub is_peeked : Phase → Bool
is_peeked opening = false
is_peeked (peeked r) = true
is_peeked assigned = false
is_peeked turning = false
is_peeked resting = false
is_peeked waiting = false
is_peeked woken = false
is_peeked (returned r) = false

module _ (t : Tree) where
  -- Queue.until, as the 64 bits of a duration.
  abbrev pub until : Queue t → ℕ → ℕ → ℕ
  until q at time = (at + (2 ^ 64 - now t q time)) % 2 ^ 64

  -- Whether a goroutine is started that sleeps until the next event.
  abbrev pub has_to_sleep : Queue t → ℕ → Option Event → Bool
  has_to_sleep q time none = false
  has_to_sleep q time (some e) = let d = until q e.at time in ltb 0 d && ltb d (2 ^ 63)

  -- `!q.closed || q.nextEvent != nil`
  abbrev pub goes_on : Queue t → Bool
  goes_on q = not q.closed || elim (q.next_event) [ none ↦ false | some e ↦ true ]

  module _ {W : Type 0} (handler : Event → W → W) where
    -- The queue, what the handler changes, where Start is, and the goroutines that sleep.
    pub record Serving : Type 0 where
      pub queue : Queue t
      pub world : W
      pub phase : Phase
      pub sleepers : ℕ

    abbrev pub start : Queue t → W → Serving
    start q w = record { queue = q; world = w; phase = opening; sleepers = 0 }

    -- `q.nextEvent, err = q.peekFirst(ctx)`, once peekFirst has returned
    abbrev pub assign : Result (Option Event) → Serving → Serving
    assign (err x) s = record s {
      queue = record (s.queue) { next_event = none };
      phase = returned (err x);
    }
    assign (ok o) s = record s { queue = record (s.queue) { next_event = o }; phase = assigned }

    -- The offset is the time of the next event.
    abbrev pub offset_by : Option Event → Queue t → Queue t
    offset_by none q = q
    offset_by (some e) q = record q { offset = e.at }

    -- The end of a turn of the outer loop, after the inner one.
    abbrev pub after_due : ℕ → ℕ → Option (Queue t × (W × Result (Unit {0}))) → Option Serving
    after_due time sleepers none = none
    after_due time sleepers (some (q, (w, err x))) =
        some (record { queue = q; world = w; phase = returned (err x); sleepers = sleepers })
    after_due time sleepers (some (q, (w, ok u))) = some (record {
      queue = q;
      world = w;
      phase = if q.closed then turning else resting;
      sleepers = if has_to_sleep q time q.next_event then suc sleepers else sleepers;
    })

    -- One turn of the outer loop; `until` reads the clock at `time`.
    unfoldable pub turn : ℕ → (ℕ → ℕ) → ℕ → Serving → Option Serving
    unfolding run_due
    turn fuel clock time s =
        if goes_on s.queue
        then after_due time s.sleepers (run_due t handler fuel clock s.queue s.world)
        else some (record s { phase = returned (ok tt) })

    -- Push wakes Start if the event is stored, and sooner than the next one.
    abbrev pub after_push : Result (Unit {0}) → Bool → Phase → Phase
    after_push (err x) sooner phase = phase
    after_push (ok u) sooner phase = if sooner then broadcast phase else phase

    -- Push, in another goroutine
    unfoldable pub push_step : ℕ → Event → Serving → Serving
    unfolding push
    push_step n event s =
        let (q, r) = push t n event s.queue in
        record s {
          queue = q;
          phase = after_push r (is_sooner t (create_key event n) s.queue.next_event) s.phase;
        }

    -- Close, in another goroutine
    unfoldable pub close_step : Serving → Serving
    unfolding close
    close_step s = record s { queue = close t s.queue; phase = broadcast s.phase }

    -- One goroutine takes one step; which one is up to the scheduler.
    pub data Step : Serving → Serving → Type 0 where
      looked :
          (s : Serving)
          → s.phase ≡ opening
          → Step s (record s { phase = peeked (peek_first t s.queue.tree) })
      set_next :
          (s : Serving) (r : Result (Option Event)) → s.phase ≡ peeked r → Step s (assign r s)
      set_offset :
          (s : Serving)
          → s.phase ≡ assigned
          → Step s (record s { queue = offset_by s.queue.next_event s.queue; phase = woken })
      turned :
          (fuel : ℕ) (clock : ℕ → ℕ) (time : ℕ) (s s' : Serving)
          → s.phase ≡ turning
          → turn fuel clock time s ≡ some s'
          → Step s s'
      rested : (s : Serving) → s.phase ≡ resting → Step s (record s { phase = waiting })
      resumed : (s : Serving) → s.phase ≡ woken → Step s (record s { phase = turning })
      fired :
          (s : Serving) (n : ℕ)
          → s.sleepers ≡ suc n
          → Step s (record s { phase = broadcast s.phase; sleepers = n })
      pushed :
          (n : ℕ) (event : Event) (s : Serving)
          → is_unlocked s.phase ≡ true
          → Step s (push_step n event s)
      shut : (s : Serving) → is_unlocked s.phase ≡ true → Step s (close_step s)

    -- What a state may come to.
    pub data Reach (s0 : Serving) : Serving → Type 0 where
      here : Reach s0 s0
      next : {s s' : Serving} → Reach s0 s → Step s s' → Reach s0 s'

    -- The step is no Push between the two halves of `q.nextEvent, err = q.peekFirst(ctx)`.
    abbrev pub IsApart : {s s' : Serving} → Step s s' → Type 0
    IsApart (looked s at) = Unit
    IsApart (set_next s r at) = Unit
    IsApart (set_offset s at) = Unit
    IsApart (turned fuel clock time s s' at ends) = Unit
    IsApart (rested s at) = Unit
    IsApart (resumed s at) = Unit
    IsApart (fired s n some_sleep) = Unit
    IsApart (pushed n event s unlocked) = is_peeked s.phase ≡ false
    IsApart (shut s unlocked) = Unit

    abbrev pub AllApart : {s0 s : Serving} → Reach s0 s → Type 0
    AllApart here = Unit
    AllApart (next r step) = AllApart r × IsApart step
