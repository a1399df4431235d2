-- ===== src/Js/Running.antt =====
-- js/js.go: Target.Run, and what a script does until it ends.
use juicemud.Base.{
  Bool, false, List, [], ◌∷◌, ◌++◌, Option, none, some, Text, ◌=~◌, is_empty, codes, if◌then◌else◌,
  Result, ok, err, ◌>>=◌, Assoc, lookup, has,
}
use juicemud.Structs.{Call}
use juicemud.Js.{
  V8, Script, ends, calls, Reply, returned, thrown, Host, RunContext, RunResult, Target,
  add_js_callback, remove_js_callback,
}

module _ (v : V8) (W : Type 0) where
  open v use {Machine, Value, Function}

  -- The state of a run: what the functions of the target change, and the RunContext.
  abbrev pub State : Type 0
  State = W × RunContext v

  -- How a script ends.
  abbrev pub Ended : Type 0
  Ended = State × (Machine × Result Value)

  -- A function over W alone, and one over the RunContext alone.
  abbrev pub outer : Option (W × Reply Value) → RunContext v → Option (State × Reply Value)
  outer none r = none
  outer (some (w, reply)) r = some ((w, r), reply)

  abbrev pub inner : W → RunContext v × Reply Value → Option (State × Reply Value)
  inner w (r, reply) = some ((w, r), reply)

  -- logFunc, over the write of a line to the console
  abbrev pub logged : Machine → Value → Text
  logged m arg = elim (v.json_stringify m arg) [
    | err e ↦ v.string arg
    | ok t ↦ if v.string arg =~ codes "[object Object]" then t else v.string arg
  ]

  abbrev pub words : Machine → List Value → List Text
  words m [] = []
  words m (a ∷ args) = logged m a ∷ words m args

  unfoldable pub log_func : (List Text → W → W) → Machine → Host v W
  log_func println m args w = some (println (words m args) w, returned none)

  -- A call of a global: those that prepareV8Context binds last hide the others.
  unfoldable pub dispatch :
      Assoc (Host v W)
      → (List Text → W → W)
      → Machine
      → Text
      → List Value
      → State
      → Option (State × Reply Value)
  unfolding log_func
  dispatch callbacks println m name args (w, r) =
      if name =~ codes "log"
      then outer (log_func println m args w) r
      else (if name =~ codes "removeCallback"
          then inner w (remove_js_callback v args r)
          else (if name =~ codes "addCallback"
              then inner w (add_js_callback v m args r)
              else elim (lookup name callbacks) [
                | none ↦ some ((w, r), thrown (codes "is not defined"))
                | some f ↦ outer (f args w) r
              ]))

  -- A script, from where it is to its end.
  unfoldable pub exec :
      (Text → List Value → State → Option (State × Reply Value))
      → Script Machine Value
      → State
      → Option Ended
  exec d (ends m r) s = some (s, (m, r))
  exec d (calls name args k) s = elim (d name args s) [
    | none ↦ none
    | some (s', reply) ↦ exec d (k reply) s'
  ]

  -- The loop of prepareV8Context over the names.
  unfoldable pub bind_all : List Text → Machine → Machine × Result (Unit {0})
  bind_all [] m = (m, ok tt)
  bind_all (name ∷ names) m = elim (v.bind m name) [
    | err e ↦ (m, err e)
    | ok m' ↦ bind_all names m'
  ]

  abbrev pub names_of : Assoc (Host v W) → List Text
  names_of [] = []
  names_of ((name, f) ∷ callbacks) = name ∷ names_of callbacks

  abbrev state_name : Text
  state_name = codes "state"

  abbrev or_empty_object : Text → Text
  or_empty_object t = if is_empty t then codes "{}" else t

  abbrev set_state : Text → Machine × Result (Unit {0}) → Machine × Result (Unit {0})
  set_state state (m, err e) = (m, err e)
  set_state state (m, ok u) = elim (v.json_parse m (or_empty_object state)) [
    | err e ↦ (m, err e)
    | ok value ↦ elim (v.set_global m state_name value) [ err e ↦ (m, err e) | ok m' ↦ (m', ok tt) ]
  ]

  -- prepareV8Context, with a console
  unfoldable pub prepare_v8_context :
      Assoc (Host v W) → Text → Machine → Machine × Result (Unit {0})
  unfolding bind_all
  prepare_v8_context callbacks state m = set_state state (
      bind_all
        (names_of callbacks ++ codes "addCallback" ∷ codes "removeCallback" ∷ codes "log" ∷ []) m)

  abbrev value_text : Machine → Option Value → Result Text
  value_text m none = ok (codes "{}")
  value_text m (some value) = if v.is_null value then ok (codes "{}") else v.json_stringify m value

  -- collectResult
  unfoldable pub collect_result : Machine → RunContext v → Option Value → Result RunResult
  collect_result m r value = value_text m value >>= λ text.
      v.get_global m state_name >>= λ state_value. v.json_stringify m state_value >>= λ state.
      ok (record { state = state; callbacks = r.callbacks; value = text })

  -- What Run leaves: the machine goes back to the others, whatever happens.
  abbrev pub Run : Type 0
  Run = W × (Machine × Result RunResult)

  abbrev pub tagged : Call → Assoc (Assoc Bool) → Bool
  tagged call callbacks = elim (lookup call.name callbacks) [
    | none ↦ false
    | some tags ↦ has call.tag tags
  ]

  abbrev pub message : Machine → Text → Result (Option Value)
  message m t = if is_empty t then ok none else (v.json_parse m t >>= λ value. ok (some value))

  abbrev pub finish : Option Ended → Option Run
  finish none = none
  finish (some ((w, r), (m, err e))) = some (w, (m, err e))
  finish (some ((w, r), (m, ok value))) = some (w, (m, collect_result m r (some value)))

  module _ (d : Text → List Value → State → Option (State × Reply Value)) where
    -- The call of the script's function.
    abbrev pub call_back : Function → Result (Option Value) → Machine → State → Option Run
    call_back f (err e) m (w, r) = some (w, (m, err e))
    call_back f (ok value) m s = finish (exec d (v.call_function m f value) s)

    -- Run from the call on.
    unfoldable pub run_call : Option Call → Machine → State → Option Run
    unfolding exec collect_result
    run_call none m (w, r) = some (w, (m, collect_result m r none))
    run_call (some call) m (w, r) =
        let nothing : Option Run = some (w, (m, collect_result m r none)) in
        if tagged call r.callbacks
        then elim (lookup call.name r.functions) [
          | none ↦ nothing
          | some f ↦ call_back f (message m call.message) m (w, r)
        ]
        else nothing

    abbrev pub after_source : Option Call → Option Ended → Option Run
    after_source call none = none
    after_source call (some ((w, r), (m, err e))) = some (w, (m, err e))
    after_source call (some (s, (m, ok value))) = run_call call m s

    -- Run, once the machine is prepared.
    unfoldable pub run_prepared :
        Target v → Option Call → Machine × Result (Unit {0}) → W → Option Run
    unfolding run_call
    run_prepared target call (m, err e) w = some (w, (m, err e))
    run_prepared target call (m, ok u) w = after_source call (
        exec d (v.run_script m target.source target.origin)
          (w, record { callbacks = []; functions = [] }))

  -- Target.Run, on a machine
  unfoldable pub run :
      Assoc (Host v W) → (List Text → W → W) → Target v → Option Call → Machine → W → Option Run
  unfolding run_prepared dispatch prepare_v8_context
  run callbacks println target call m w =
      run_prepared (dispatch callbacks println m) target call
        (prepare_v8_context callbacks target.state m) w
