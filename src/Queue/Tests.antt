-- ===== src/Queue/Tests.antt =====
-- A push to a queue over a tree that holds one event at most.
use juicemud.Base.{
  ◌+◌, ◌≤◌, ◌<◌, ℕ, ◌≡◌, refl, sym, ap, ◌∙◌, inl, inr, Bool, true, false, [], ◌∷◌, Option, none,
  some, invalid, ok, err, arith, Text, ◌=~◌, =~_iff, Bool-cases,
}
use mathlib.Core.Path.{subst}
use juicemud.Structs.{Event}
use juicemud.Structs.Keys.{create_key}
use juicemud.Queue.{In, Queue, push, peek_first}
use juicemud.Queue.Memory.{slot, place, held, filled, filled-failed}
use juicemud.Queue.Serving.{
  Phase, peeked, assigned, turning, resting, waiting, woken, returned, Serving, start, turn,
  close_step, looked, set_next, set_offset, turned, rested, resumed, pushed, push_step, shut, Reach,
  here, next,
}
use juicemud.Queue.Drained.{Reach-drained}
use juicemud.Queue.Handled.{HasKey, Reach-handled}
use juicemud.Queue.Loop.{Ends, run_due-Ends}
use juicemud.Queue.Due.{IsEarliest, IsKeyed, push-IsEarliest, peek_first-IsEarliest}

abbrev event_at : ℕ → Event
event_at at = record {
  at = at;
  object = [];
  call = record { name = []; message = []; tag = [] };
  key = [];
}

abbrev idle : Queue slot
idle = record { tree = none; closed = false; next_event = none; offset = 0 }

push-IsEarliest_example :
    let (q', r) = push slot 1 (event_at 30) idle in
    (r ≡ ok tt → IsEarliest slot q'.tree q'.next_event)
    × (idle.closed ≡ true → (q' ≡ idle) × (r ≡ err invalid))
push-IsEarliest_example = push-IsEarliest slot 1 (event_at 30) idle (λ x nowhere. absurd nowhere)

abbrev idle_place : Queue place
idle_place = record { tree = none; closed = false; next_event = none; offset = 0 }

abbrev made : Event
made = create_key (event_at 30) 1

made-IsKeyed : (x : Event) → In x (made ∷ []) → IsKeyed x
unfolding create_key
made-IsKeyed x (inl same) = subst IsKeyed (sym same) (1, omega arith, refl)
made-IsKeyed x (inr nowhere) = absurd nowhere

peek_first-IsEarliest_example : IsEarliest slot (some made) (some made)
unfolding peek_first
peek_first-IsEarliest_example = peek_first-IsEarliest slot (some made) (some made) made-IsKeyed refl

run_due-Ends_example :
    Ends slot
      (λ e n. n + 1)
      (λ n. 50)
      2
      (record { tree = some made; closed = false; next_event = some made; offset = 0 })
      0
run_due-Ends_example =
    run_due-Ends slot (λ e n. n + 1) (λ n. 50) 2
      (record { tree = some made; closed = false; next_event = some made; offset = 0 }) 0
      made-IsKeyed (inl refl, λ x at. first x at) (omega arith)
  where
    first : (x : Event) → In x (made ∷ []) → made.at ≤ x.at
    first x (inl same) = ground (arith, ap (λ k. k.at) same)
    first x (inr nowhere) = absurd nowhere

abbrev count : Event → ℕ → ℕ
count e n = n + 1

abbrev ready : Event
ready = record (event_at 30) { key = 7 ∷ [] }

-- The queue is opened with one event, which is due; then it is closed.
abbrev stored : Queue place
stored = record { tree = some ready; closed = false; next_event = none; offset = 0 }

abbrev opened_at : Bool → Phase → Serving place count
opened_at b phase = record {
  queue = record { tree = none; closed = b; next_event = none; offset = 30 };
  world = 1;
  phase = phase;
  sleepers = 0;
}

abbrev found : Phase → Option Event → ℕ → Serving place count
found phase o offset = record {
  queue = record { tree = some ready; closed = false; next_event = o; offset = offset };
  world = 0;
  phase = phase;
  sleepers = 0;
}

opens : Reach place count (start place count stored 0) (found woken (some ready) 30)
unfolding peek_first
opens =
    next
      (next (next here (looked _ refl)) (set_next (found (peeked (ok (some ready))) none 0) _ refl))
      (set_offset (found assigned (some ready) 0) refl)

-- The rest of the steps.
serves :
    {s0 : Serving place count}
    → Reach place count s0 (found woken (some ready) 30)
    → Reach place count s0 (opened_at true (returned (ok tt)))
unfolding turn close_step ◌=~◌
serves before =
    next
      (next
        (next
          (next
            (next (next before (resumed (found woken (some ready) 30) refl)) (
              turned 2 (λ n. 50) 50 (found turning (some ready) 30) (opened_at false resting) refl
                refl))
            (rested (opened_at false resting) refl))
          (shut (opened_at false waiting) refl))
        (resumed (opened_at true woken) refl))
      (turned 2 (λ n. 50) 50 (opened_at true turning) (opened_at true (returned (ok tt))) refl refl)

keeps_key :
    (k : Text) (o : Option Event) (e : Event) → HasKey k (held o) → HasKey k (held (filled o e).0)
keeps_key k none e h = absurd h
keeps_key k (some d) e (inr nowhere) = absurd nowhere
keeps_key k (some d) e (inl same) = elim (Bool-cases (d.key =~ e.key)) [
  | inl hit ↦ rw hit (inl (sym ((=~_iff d.key e.key).0 hit) ∙ same))
  | inr other ↦ rw other (inl same)
]

Reach-handled_example : 0 < 1
unfolding opens serves
Reach-handled_example =
    Reach-handled place count ready.key (λ n. 0 < n) (λ e n same. omega arith)
      (λ e n h. omega (arith, h)) (keeps_key ready.key) filled-failed stored 0
      (found woken (some ready) 30) (opened_at true (returned (ok tt))) opens (((tt, tt), tt), tt)
      (inl refl) (serves here) ((((((tt, tt), tt), tt), tt), tt), tt) refl

Reach-drained_example :
    let q = (opened_at true (returned (ok tt))).queue in
    (q.closed ≡ true) × ((x : Event) → In x (held q.tree) → ⊥)
unfolding opens serves
Reach-drained_example =
    Reach-drained place count filled-failed stored 0 (opened_at true (returned (ok tt)))
      (serves opens) (((((((((tt, tt), tt), tt), tt), tt), tt), tt), tt), tt) refl

abbrev missed : Option Event → Bool → Phase → Serving place count
missed o closed phase = record {
  queue = record { tree = some made; closed = closed; next_event = o; offset = 0 };
  world = 0;
  phase = phase;
  sleepers = 0;
}

-- A Push between the return of peekFirst and the assignment: its event is in the tree when Start has
-- returned without an error, and the handler was not called.
lost_push : Reach place count (start place count idle_place 0) (missed none true (returned (ok tt)))
unfolding peek_first push_step turn close_step
lost_push =
    next
      (next
        (next
          (next
            (next
              (next
                (next
                  (next
                    (next (next here (looked _ refl)) (
                      pushed 1 (event_at 30)
                        (record (start place count idle_place 0) { phase = peeked (ok none) })
                        refl))
                    (set_next (missed (some made) false (peeked (ok none))) _ refl))
                  (set_offset (missed none false assigned) refl))
                (resumed (missed none false woken) refl))
              (turned 1 (λ n. 50) 50 (missed none false turning) (missed none false resting) refl
                refl))
            (rested (missed none false resting) refl))
          (shut (missed none false waiting) refl))
        (resumed (missed none true woken) refl))
      (turned 1 (λ n. 50) 50 (missed none true turning) (missed none true (returned (ok tt))) refl
        refl)
