-- ===== src/Queue/Handled.antt =====
-- What was in the tree is handled before Start returns.
use mathlib.Core.Path.{subst}
use juicemud.Base.{
  ℕ, zero, suc, ◌≡◌, refl, sym, ◌∙◌, inl, inr, ◌⊎◌, Bool, true, false, List, [], ◌∷◌, Option, none,
  some, Text, ◌=~◌, =~_iff, Error, Result, ok, err, leb, Bool-cases,
}
use juicemud.Structs.{Event}
use juicemud.Structs.Keys.{create_key}
use juicemud.Queue.{Tree, In, Queue, push, close, without, now, after_event, run_due}
use juicemud.Queue.Loop.{after_event-ok}
use juicemud.Queue.Serving.{
  Phase, returned, goes_on, Serving, start, assign, offset_by, after_due, turn, after_push,
  push_step, close_step, Step, looked, set_next, set_offset, turned, rested, resumed, fired, pushed,
  shut, Reach, here, next, AllApart,
}
use juicemud.Queue.Phases.{
  UnlessFailed, UnlessFailed-map, UnlessFailed-start, UnlessFailed-broadcast,
}
use juicemud.Queue.Drained.{IsKept-subst, Reach-IsKept}
use juicemud.Queue.Watch.{IsWatched}

-- One of the events has this key.
abbrev pub HasKey : Text → List Event → Type 0
HasKey k [] = ⊥
HasKey k (e ∷ es) = (e.key ≡ k) ⊎ HasKey k es

HasKey-In : (k : Text) (es : List Event) → HasKey k es → (x : Event) × In x es
HasKey-In k [] h = absurd h
HasKey-In k (e ∷ es) h = (e, inl refl)

without-HasKey :
    (j k : Text) (es : List Event) → (j =~ k) ≡ false → HasKey k es → HasKey k (without j es)
without-HasKey j k [] other h = h
without-HasKey j k (e ∷ es) other h = elim (Bool-cases (e.key =~ j)) [
  | inl same ↦ rw same (elim h [
    | inl same_k ↦
        let j_k : j ≡ k = sym ((=~_iff e.key j).0 same) ∙ same_k in
        let hit = (=~_iff j k).1 j_k in absurd (cc)
    | inr there ↦ without-HasKey j k es other there
  ])
  | inr differs ↦
      rw differs
        (elim h [ inl same_k ↦ inl same_k | inr there ↦ inr (without-HasKey j k es other there) ])
]

module _ (t : Tree) {W : Type 0} (handler : Event → W → W) (k : Text) (P : W → Type 0)
    (by_it : (e : Event) (w : W) → e.key ≡ k → P (handler e w))
    (by_others : (e : Event) (w : W) → P w → P (handler e w)) where
  -- An event of the key is in the tree, or one was handled.
  abbrev IsPending : Queue t → W → Type 0
  IsPending q w = HasKey k (t.events q.tree) ⊎ P w

  abbrev IsPendingAfter : Option (Queue t × (W × Result (Unit {0}))) → Type 0
  IsPendingAfter none = Unit
  IsPendingAfter (some (q, (w, err x))) = Unit
  IsPendingAfter (some (q, (w, ok u))) = IsPending q w

  after_event-IsPending :
      (e : Event) (q : Queue t) (w : W)
      → (after_event t e q).1 ≡ ok tt
      → IsPending q w
      → IsPending (after_event t e q).0 (handler e w)
  after_event-IsPending e q w done (inr p) = inr (by_others e w p)
  after_event-IsPending e q w done (inl has) = elim (Bool-cases (e.key =~ k)) [
    | inl same ↦ inr (by_it e w ((=~_iff e.key k).0 same))
    | inr other ↦ inl (
        subst (HasKey k) (sym (after_event-ok t e q done).0)
          (without-HasKey e.key k (t.events q.tree) other has))
  ]

  run_due-IsPendingAfter :
      (fuel : ℕ) (clock : ℕ → ℕ) (q : Queue t) (w : W)
      → IsPending q w
      → IsPendingAfter (run_due t handler fuel clock q w)
  unfolding run_due
  run_due-IsPendingAfter zero clock q w h = tt
  run_due-IsPendingAfter (suc fuel) clock q w h =
      go q.next_event (λ q' w' l. run_due-IsPendingAfter fuel clock q' w' l)
    where
      Rest : Type 0
      Rest =
          (q' : Queue t) (w' : W)
          → IsPending q' w'
          → IsPendingAfter (run_due t handler fuel clock q' w')

      at_event : Event → Queue t
      at_event e = record q { next_event = some e }

      turned_on :
          (e : Event)
          → Rest
          → (r : Result (Unit {0})) → (after_event t e (at_event e)).1 ≡ r
          → let q' = (after_event t e (at_event e)).0 in
            IsPendingAfter (elim r [
              | err x ↦ some (q', (handler e w, err x))
              | ok _ ↦ run_due t handler fuel clock q' (handler e w)
            ])
      turned_on e rest (err x) same = tt
      turned_on e rest (ok u) same =
          rest (after_event t e (at_event e)).0 (handler e w)
            (after_event-IsPending e (at_event e) w same h)

      go :
          (o : Option Event)
          → Rest
          → IsPendingAfter (run_due t handler (suc fuel) clock (record q { next_event = o }) w)
      go none rest = h
      go (some e) rest = elim (Bool-cases (leb e.at (now t q (clock fuel)))) [
        | inl due ↦ rw (due, run_due) (turned_on e rest (after_event t e (at_event e)).1 refl)
        | inr later ↦ rw (later, run_due) h
      ]

  abbrev AllPending : Option (Serving t handler) → Type 0
  AllPending none = Unit
  AllPending (some s) = UnlessFailed (IsPending s.queue s.world) s.phase

  after_due-AllPending :
      (time sleepers : ℕ) (o : Option (Queue t × (W × Result (Unit {0}))))
      → IsPendingAfter o
      → AllPending (after_due t handler time sleepers o)
  after_due-AllPending time sleepers none h = tt
  after_due-AllPending time sleepers (some (q, (w, err x))) h = tt
  after_due-AllPending time sleepers (some (q, (w, ok u))) h = UnlessFailed-start _ h

  turn-AllPending :
      (fuel : ℕ) (clock : ℕ → ℕ) (time : ℕ) (s : Serving t handler)
      → IsPending s.queue s.world
      → AllPending (turn t handler fuel clock time s)
  unfolding turn
  turn-AllPending fuel clock time s h = elim (Bool-cases (goes_on t s.queue)) [
    | inl on ↦
        rw (on, turn)
          (after_due-AllPending time s.sleepers _
            (run_due-IsPendingAfter fuel clock s.queue s.world h))
    | inr over ↦ rw (over, turn) h
  ]

  -- What the tree promises here of Set: that no key is lost, and that no event is added by one that fails.
  module _
      (keys : (db : t.Db) (e : Event) → HasKey k (t.events db) → HasKey k (t.events (t.set db e).0))
      (failed : (db : t.Db) (e x : Event) (y : Error)
        → (t.set db e).1 ≡ err y
        → In x (t.events (t.set db e).0)
        → In x (t.events db)) where
    push-IsPending :
        (n : ℕ) (event : Event) (q : Queue t) (w : W)
        → IsPending q w
        → IsPending (push t n event q).0 w
    unfolding push
    push-IsPending n event q w (inr p) = inr p
    push-IsPending n event q w (inl has) = inl (go q.closed refl)
      where
        stored :
            (r : Result (Unit {0}))
            → (t.set q.tree (create_key event n)).1 ≡ r
            → q.closed ≡ false
            → HasKey k (t.events (push t n event q).0.tree)
        stored (ok u) e is_open = rw (is_open, e, push) (keys q.tree (create_key event n) has)
        stored (err x) e is_open = rw (is_open, e, push) (keys q.tree (create_key event n) has)

        go : (b : Bool) → q.closed ≡ b → HasKey k (t.events (push t n event q).0.tree)
        go true is_closed = rw (is_closed, push) has
        go false is_open = stored (t.set q.tree (create_key event n)).1 refl is_open

    after_push-UnlessFailed :
        (A : Type 0) (r : Result (Unit {0})) (sooner : Bool) (ph : Phase)
        → UnlessFailed A ph
        → UnlessFailed A (after_push t handler r sooner ph)
    after_push-UnlessFailed A (err x) sooner ph h = h
    after_push-UnlessFailed A (ok u) true ph h = UnlessFailed-broadcast A ph h
    after_push-UnlessFailed A (ok u) false ph h = h

    abbrev IsPendingAt : Serving t handler → Phase → Type 0
    IsPendingAt s ph = UnlessFailed (IsPending s.queue s.world) ph

    assign-IsPending :
        (s : Serving t handler) (r : Result (Option Event))
        → IsPending s.queue s.world
        → IsPendingAt (assign t handler r s) (assign t handler r s).phase
    assign-IsPending s (err x) h = tt
    assign-IsPending s (ok o) h = h

    offset_by-IsPending :
        (o : Option Event) (q : Queue t) (w : W)
        → IsPending q w
        → IsPending (offset_by t handler o q) w
    offset_by-IsPending none q w h = h
    offset_by-IsPending (some e) q w h = h

    Step-IsPending :
        {s s' : Serving t handler}
        → Step t handler s s'
        → IsPendingAt s s.phase
        → IsPendingAt s' s'.phase
    unfolding push_step close_step close
    Step-IsPending (looked s at) h = subst (IsPendingAt s) at h
    Step-IsPending (set_next s r at) h = assign-IsPending s r (subst (IsPendingAt s) at h)
    Step-IsPending (set_offset s at) h =
        offset_by-IsPending s.queue.next_event s.queue s.world (subst (IsPendingAt s) at h)
    Step-IsPending (turned fuel clock time s s' at ends) h =
        subst AllPending ends (turn-AllPending fuel clock time s (subst (IsPendingAt s) at h))
    Step-IsPending (rested s at) h = subst (IsPendingAt s) at h
    Step-IsPending (resumed s at) h = subst (IsPendingAt s) at h
    Step-IsPending (fired s n some_sleep) h = UnlessFailed-broadcast _ s.phase h
    Step-IsPending (pushed n event s unlocked) h =
        after_push-UnlessFailed _ (push t n event s.queue).1 _ s.phase
          (UnlessFailed-map (push-IsPending n event s.queue s.world) s.phase h)
    Step-IsPending (shut s unlocked) h = UnlessFailed-broadcast _ s.phase h

    Reach-IsPending :
        {s0 s : Serving t handler}
        → IsPendingAt s0 s0.phase
        → Reach t handler s0 s
        → IsPendingAt s s.phase
    Reach-IsPending h here = h
    Reach-IsPending h (next r step) = Step-IsPending step (Reach-IsPending h r)

    -- Of an event that the tree holds at some time while Start runs, one with its key was handled if
    -- Start has returned without an error, in every order of the steps of Start, of the goroutines it
    -- starts, and of calls of Push and Close by others, in which no Push falls between the return of
    -- peekFirst at the beginning of Start and the assignment of what it gave. What was handled is seen by a predicate that
    -- the handling of such an event makes true, and that of others keeps. It is assumed of the tree
    -- that a Set loses no such key, and that one that fails adds no event.
    pub Reach-handled :
        (q : Queue t) (w : W) (s s' : Serving t handler)
        → (before : Reach t handler (start t handler q w) s) → AllApart t handler before
        → HasKey k (t.events s.queue.tree)
        → (after : Reach t handler s s') → AllApart t handler after
        → s'.phase ≡ returned (ok tt)
        → P s'.world
    Reach-handled q w s s' before apart has after apart' at =
        let (is_closed, no_event, watched) =
          IsKept-subst t handler failed s'.queue s'.phase (returned (ok tt)) at (
            Reach-IsKept t handler failed (Reach-IsKept t handler failed tt before apart) after
              apart') in
        let none_left : (x : Event) → In x (t.events s'.queue.tree) → ⊥ =
          subst (IsWatched t s'.queue.tree) no_event watched in
        elim (subst (IsPendingAt s') at
          (Reach-IsPending (UnlessFailed-start s.phase (inl has)) after)) [
            | inl still ↦
                let (x, there) = HasKey-In k (t.events s'.queue.tree) still in
                absurd (none_left x there)
            | inr done ↦ done
          ]
