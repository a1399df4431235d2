-- ===== src/Game/Safety.antt =====
-- What no script can do, however it runs: change files, users or groups, or put an event in the queue
-- that has another tag than `emit`; and whom an event for a neighbourhood reaches.
use juicemud.Base.{ℕ, ◌≡◌, refl, ap, ◌∙◌, Text, ◌⊎◌, inl, inr, Bool-cases, Result-cases}
use juicemud.Base.Act.{Left}
use juicemud.Structs.{Call, Event}
use juicemud.Structs.Keys.{create_key}
use juicemud.Files.Sources.{Store}
use juicemud.Queue.{Tree, In, push}
use juicemud.Game.{Parts, World}
use juicemud.Game.Emit.{event_of, emit_event_tag}
use juicemud.Game.Stable.{IsStable}
use juicemud.Game.Run.{handle_event}
use juicemud.Game.Keeps.{handle_event-Keeps}

module _ (p : Parts) where
  pub files-IsStable : (files : Store p.sql p.tkrzw) → IsStable p (λ w. w.files ≡ files)
  files-IsStable files = record {
    emitted = λ w at id name json h. h;
    stored = λ w db h. h;
    ruled = λ w rules h. h;
    printed = λ w consoles h. h;
    moved = λ w ms h. h;
  }

  -- Whatever the scripts of the objects are, and whatever JSON they give to the functions that they
  -- are given, the handling of an event leaves the files, users and groups as they were, whether it
  -- ends well or fails.
  pub handle_event-files :
      (fuel : ℕ) (object : Text) (call : Call) (w : World p)
      → Left (λ w'. w'.files ≡ w.files) (handle_event p fuel object call w)
  handle_event-files fuel object call w =
      (handle_event-Keeps p (λ w'. w'.files ≡ w.files) (files-IsStable w.files) fuel object call).at
        w refl

  -- Set adds no event but its own, also where it fails.
  abbrev pub AddsOnly : Tree → Type 0
  AddsOnly t =
      (db : t.Db) (e x : Event) → In x (t.events (t.set db e).0) → (x ≡ e) ⊎ In x (t.events db)

  -- Every event of the queue has the tag of those that scripts emit.
  abbrev pub AllEmitted : World p → Type 0
  AllEmitted w = (x : Event) → In x (p.tree.events w.queue.tree) → x.call.tag ≡ emit_event_tag

  push-AllEmitted :
      AddsOnly p.tree
      → (w : World p) (counter at : ℕ) (id name json : Text) → AllEmitted w
      → (x : Event)
      → In x (p.tree.events (push p.tree counter (event_of p at id name json) w.queue).0.tree)
      → x.call.tag ≡ emit_event_tag
  unfolding push create_key
  push-AllEmitted only w counter at id name json h x there =
      let ev = create_key (event_of p at id name json) counter in
      elim (Bool-cases w.queue.closed) [
        | inl shut ↦ h x (rw (shut, push) at there)
        | inr opened ↦ elim (Result-cases (p.tree.set w.queue.tree ev).1) [
          | inl (e, failed) ↦ settled ev refl (rw (opened, failed, push) at there)
          | inr (u, done) ↦ settled ev refl (rw (opened, done, push) at there)
        ]
      ]
    where
      settled :
          (ev : Event)
          → ev.call.tag ≡ emit_event_tag
          → In x (p.tree.events (p.tree.set w.queue.tree ev).0)
          → x.call.tag ≡ emit_event_tag
      settled ev tag at = elim (only w.queue.tree ev x at) [
        | inl same ↦ ap (λ e. e.call.tag) same ∙ tag
        | inr old ↦ h x old
      ]

  emitted-IsStable : AddsOnly p.tree → IsStable p AllEmitted
  emitted-IsStable only = record {
    emitted = λ w at id name json h. push-AllEmitted only w w.counter at id name json h;
    stored = λ w db h. h;
    ruled = λ w rules h. h;
    printed = λ w consoles h. h;
    moved = λ w ms h. h;
  }

  -- If Set adds no event but its own, and every event of the queue has the tag `emit`, then so it is
  -- after the handling of an event, whatever the scripts are: no script can call a callback of another
  -- tag.
  pub handle_event-AllEmitted :
      (fuel : ℕ) (object : Text) (call : Call) (w : World p)
      → AddsOnly p.tree
      → AllEmitted w
      → Left AllEmitted (handle_event p fuel object call w)
  handle_event-AllEmitted fuel object call w only h =
      (handle_event-Keeps p AllEmitted (emitted-IsStable only) fuel object call).at w h
