-- ===== src/Game/Keeps.antt =====
-- What no script can do, however it runs: it cannot change files, users or groups, and it cannot put an
-- event in the queue that has another tag than `emit`.
use juicemud.Base.{
  ℕ, zero, suc, List, [], ◌∷◌, ◌++◌, Option, none, some, Text, ok, err, if◌then◌else◌, is_empty,
  codes,
}
use juicemud.Base.Act.{Act, Left, Keeps, Keeps-pure, Keeps-lift, Keeps-if, Keeps-bind}
use juicemud.Structs.{Object, Call, join}
use juicemud.Objects.{Movement}
use juicemud.Fanout.{Fanout}
use juicemud.Js.Running.{Run, run}
use juicemud.Js.Effects.{RunLeaves, run-Leaves}
use juicemud.Game.{Parts, World, println, write_console, console_of, console_left}
use juicemud.Game.Storage.{Refresh}
use juicemud.Game.Stable.{IsStable, store_object-Keeps, emit_movement-Keeps}
use juicemud.Game.Harmless.{Q, add_global_callbacks-Harmlessly, add_object_callbacks-Harmlessly}
use juicemud.Game.Scripts.{State, add_global_callbacks, add_object_callbacks}
use juicemud.Game.Run.{
  Caller, call_of, has_nothing_to_run, logged_error, returned_machine, run_target, run_object,
  run_save, load_run_save, level, handle_event,
}

module _ (p : Parts) (P : World p → Type 0) (stable : IsStable p P) where
  write_console-Keeps : (id text : Text) (w : World p) → P w → P (write_console p id text w)
  unfolding write_console
  write_console-Keeps id text w h = go (console_of p id w.consoles)
    where
      go : (f : Option Fanout) → P (console_left p id f text w)
      go none = h
      go (some f) = stable.printed w _ h

  println-Keeps : (id : Text) (t : List Text) (w : World p) → P w → P (println p id t w)
  unfolding println
  println-Keeps id t = write_console-Keeps id (join (codes " ") t ++ codes "\n")

  logged_error-Keeps : (id : Text) (o : Option Text) (w : World p) → P w → P (logged_error p id o w)
  logged_error-Keeps id none w h = h
  logged_error-Keeps id (some text) w h = write_console-Keeps id (text ++ codes "\n") w h

  returned_machine-Left :
      (id : Text) (mod_time : ℕ) (o : Option (Run p.v8 (State p)))
      → RunLeaves p.v8 (State p) (Q p P stable) o
      → Left P (returned_machine p id mod_time o)
  returned_machine-Left id mod_time none h = tt
  returned_machine-Left id mod_time (some ((w, object), (m, ok res))) h = stable.moved w _ h
  returned_machine-Left id mod_time (some ((w, object), (m, err e))) h =
      logged_error-Keeps id (p.js_error e) _ (stable.moved w _ h)

  module _ (handler : Movement → Act (World p) (Unit {0})) (ref : Refresh p)
      (handled : (x : Movement) → Keeps P (handler x))
      (refreshed : (o : Object) → Keeps P (ref o)) where
    run_target-Keeps :
        (object : Object) (call : Option Call) (source : Text) (mod_time : ℕ)
        → Keeps P (run_target p handler ref object call source mod_time)
    unfolding run_target
    run_target-Keeps object call source mod_time = record { at = λ w h. go w h w.machines }
      where
        go :
            (w : World p)
            → P w
            → (ms : List p.v8.Machine)
            → Left P (elim ms [
              | [] ↦ none
              | m ∷ machines ↦ returned_machine p object.id mod_time (
                  run p.v8
                    (State p)
                    (add_object_callbacks p m handler ref (add_global_callbacks p m []))
                    (λ words s. (println p object.id words (s.0), s.1))
                    (record { source = source; origin = object.source_path; state = object.state })
                    call
                    m
                    (record w { machines = machines }, object))
            ])
        go w h [] = tt
        go w h (m ∷ ms) = returned_machine-Left object.id mod_time _ (
            run-Leaves p.v8 (State p) (Q p P stable) _ _
              (add_object_callbacks-Harmlessly p P stable m handler ref handled refreshed _
                (add_global_callbacks-Harmlessly p P stable m))
              (λ t s k. println-Keeps object.id t (s.0) k) _ call m _ (stable.moved w ms h))

    run_object-Keeps :
        (object : Object) (caller : Caller p) → Keeps P (run_object p handler ref object caller)
    unfolding run_object
    run_object-Keeps object caller = Keeps-bind _ _ (Keeps-lift (call_of p caller)) (λ call.
        Keeps-bind _ _ (record { at = λ w h. h })
          (λ t. Keeps-if (has_nothing_to_run p object call t) _ _ (Keeps-pure object) (
            Keeps-bind _ _ (record { at = λ w h. h })
              (λ source. run_target-Keeps object call (source.0) (source.1)))))

    load_run_save-Keeps :
        (id : Text) (caller : Caller p) → Keeps P (load_run_save p handler ref id caller)
    unfolding load_run_save run_save
    load_run_save-Keeps id caller =
        Keeps-bind _ _ (record { at = λ w h. h })
          (λ object. Keeps-bind _ _ (run_object-Keeps object caller) (λ ran.
            store_object-Keeps p stable handler ref handled refreshed (some object.location) ran))

  pub level-Keeps :
      (fuel : ℕ)
      → ((x : Movement) → Keeps P ((level p fuel).0 x))
        × ((o : Object) → Keeps P ((level p fuel).1 o))
  unfolding level
  level-Keeps zero = (λ x. record { at = λ w h. tt }, λ o. record { at = λ w h. tt })
  level-Keeps (suc fuel) =
      let (handled, refreshed) = level-Keeps fuel in
      (
        emit_movement-Keeps p stable (level p fuel).0 (level p fuel).1 handled refreshed,
        λ o. run_object-Keeps (level p fuel).0 (level p fuel).1 handled refreshed o none,
      )

  -- Whatever the scripts are, the handling of an event keeps every predicate that the single changes
  -- keep, whether it ends well or fails.
  pub handle_event-Keeps :
      (fuel : ℕ) (object : Text) (call : Call) → Keeps P (handle_event p fuel object call)
  unfolding handle_event
  handle_event-Keeps fuel object call =
      let (handled, refreshed) = level-Keeps fuel in
      load_run_save-Keeps (level p fuel).0 (level p fuel).1 handled refreshed object
        (if is_empty call.name then none else some (ok call))
