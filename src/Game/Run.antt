-- ===== src/Game/Run.antt =====
-- game/processing.go: run, runSave and loadRunSave, and rerunSource, which runs the script of an object
-- that is read while another runs: on fuel, for how deep such runs are in each other.
use juicemud.Base.{
  ℕ, zero, suc, Bool, false, ◌&&◌, not, [], ◌∷◌, ◌++◌, Option, none, some, Text, Result, ok, err,
  if◌then◌else◌, leb, is_empty, codes,
}
use juicemud.Base.Act.{Act, ◌>>=◌, pure, lift}
use juicemud.Structs.{Object, Call, has_callback}
use juicemud.Files.Sources.{source_mod_time, load_source}
use juicemud.Objects.{Movement, load_object}
use juicemud.Js.{RunResult}
use juicemud.Js.Running.{Run, run}
use juicemud.Game.{Parts, World, println, write_console}
use juicemud.Game.Storage.{Refresh, store_object, emit_movement_to_neighbourhood}
use juicemud.Game.Scripts.{State, add_global_callbacks, add_object_callbacks}

module _ (p : Parts) where
  -- The type Caller: what its method Call gives; `none` is nil.
  abbrev pub Caller : Type 0
  Caller = Option (Result Call)

  abbrev pub call_of : Caller → Result (Option Call)
  call_of none = ok none
  call_of (some (ok call)) = ok (some call)
  call_of (some (err e)) = err e

  -- The test at the beginning of run: the source is no newer, and there is no callback for the call.
  abbrev pub has_nothing_to_run : Object → Option Call → ℕ → Bool
  has_nothing_to_run object none t = false
  has_nothing_to_run object (some call) t =
      leb t object.source_mod_time && not (has_callback object call.name call.tag)

  abbrev pub source_time : World p → Text → Option Call → Result ℕ
  source_time w path none = ok 0
  source_time w path (some call) = source_mod_time p.sql p.tkrzw w.files.mod_times path

  -- The object after a run that ended well; the object that the script changed is the same one.
  abbrev pub object_after : RunResult → ℕ → Object → Object
  object_after res mod_time object = record object {
    state = res.state;
    callbacks = res.callbacks;
    source_mod_time = mod_time;
  }

  -- What is logged when a run fails with an error of the script; any other error leaves the console.
  abbrev pub logged_error : Text → Option Text → World p → World p
  logged_error id none w = w
  logged_error id (some text) w = write_console p id (text ++ codes "\n") w

  -- What Run gives; the machine is one of those that wait again.
  abbrev pub returned_machine :
      Text → ℕ → Option (Run p.v8 (State p)) → Option (World p × Result Object)
  returned_machine id mod_time none = none
  returned_machine id mod_time (some ((w, object), (m, ok res))) =
      some (record w { machines = w.machines ++ m ∷ [] }, ok (object_after res mod_time object))
  returned_machine id mod_time (some ((w, object), (m, err e))) =
      some (logged_error id (p.js_error e) (record w { machines = w.machines ++ m ∷ [] }), err e)

  module _ (handler : Movement → Act (World p) (Unit {0})) (ref : Refresh p) where
    -- The run of the target, on the first machine that waits; where none does, it waits for ever.
    unfoldable pub run_target : Object → Option Call → Text → ℕ → Act (World p) Object
    unfolding add_global_callbacks add_object_callbacks write_console
    run_target object call source mod_time w = elim (w.machines) [
      | [] ↦ none
      | m ∷ machines ↦ returned_machine object.id mod_time (
          run p.v8 (State p) (add_object_callbacks p m handler ref (add_global_callbacks p m []))
            (λ words s. (println p object.id words (s.0), s.1))
            (record { source = source; origin = object.source_path; state = object.state }) call m
            (record w { machines = machines }, object))
    ]

    -- run
    unfoldable pub run_object : Object → Caller → Act (World p) Object
    unfolding run_target
    run_object object caller = do
      call ← lift (call_of caller)
      t ← λ w. some (w, source_time w object.source_path call)
      let running : Act (World p) Object = do
        source ← λ w. some (w, load_source p.sql p.tkrzw w.files object.source_path)
        run_target object call (source.0) (source.1)
      if has_nothing_to_run object call t then pure object else running

    -- runSave
    unfoldable pub run_save : Object → Caller → Act (World p) (Unit {0})
    unfolding run_object store_object
    run_save object caller = do
      ran ← run_object object caller
      store_object p handler (some object.location) ran

    -- loadRunSave, under the lock of the object
    unfoldable pub load_run_save : Text → Caller → Act (World p) (Unit {0})
    unfolding run_save
    load_run_save id caller = do
      object ← λ w. some (w, load_object p.tkrzw p.object_bytes w.objects id)
      run_save object caller

  -- emitMovementToNeighbourhood and rerunSource, which need each other.
  unfoldable pub level : ℕ → (Movement → Act (World p) (Unit {0})) × Refresh p
  unfolding run_object emit_movement_to_neighbourhood
  level zero = ((λ m w. none), λ object w. none)
  level (suc fuel) =
      let (handler, ref) = level fuel in
      (emit_movement_to_neighbourhood p handler ref, λ object. run_object handler ref object none)

  -- What the handler of the queue does with an event.
  unfoldable pub handle_event : ℕ → Text → Call → Act (World p) (Unit {0})
  unfolding load_run_save level
  handle_event fuel object call =
      let (handler, ref) = level fuel in
      load_run_save handler ref object (if is_empty call.name then none else some (ok call))
