-- ===== src/Js/Effects.antt =====
-- What a script can do to the world: only what the functions that it is given do.
use mathlib.Core.Path.{subst}
use juicemud.Base.{
  ◌≡◌, refl, List, Option, none, some, Text, ◌=~◌, Result, ok, err, Assoc, lookup, insert,
  lookup-insert, Bool-cases, inl, inr, codes,
}
use juicemud.Structs.{Call}
use juicemud.Js.{V8, Script, ends, calls, Reply, thrown, Host, RunContext, Target}
use juicemud.Js.Running.{
  State, Ended, Run, dispatch, exec, outer, run, run_prepared, run_call, log_func, collect_result,
  tagged, finish, call_back, after_source, message,
}

module _ (v : V8) (W : Type 0) (Q : W → Type 0) where
  open v use {Machine, Value, Function}

  -- What holds of the world that a function of Go leaves, where it comes to an end.
  abbrev pub HostLeft : Option (W × Reply Value) → Type 0
  HostLeft none = Unit
  HostLeft (some (w, reply)) = Q w

  abbrev pub IsHarmless : Host v W → Type 0
  IsHarmless f = (args : List Value) (w : W) → Q w → HostLeft (f args w)

  abbrev pub AllHarmless : Assoc (Host v W) → Type 0
  AllHarmless callbacks =
      (name : Text) (f : Host v W) → lookup name callbacks ≡ some f → IsHarmless f

  pub insert-AllHarmless :
      (name : Text) (f : Host v W) (callbacks : Assoc (Host v W))
      → IsHarmless f
      → AllHarmless callbacks
      → AllHarmless (insert name f callbacks)
  insert-AllHarmless name f callbacks h all j g found = elim (Bool-cases (name =~ j)) [
    | inl t ↦
        let at : some f ≡ some g = rw (lookup-insert j name f callbacks, t) at found in
        let same : f ≡ g = cc in subst IsHarmless same h
    | inr t ↦ all j g (rw (lookup-insert j name f callbacks, t) at found)
  ]

  abbrev pub Leaves : {X : Type 0} → Option (State v W × X) → Type 0
  Leaves none = Unit
  Leaves (some ((w, r), x)) = Q w

  abbrev pub RunLeaves : Option (Run v W) → Type 0
  RunLeaves none = Unit
  RunLeaves (some (w, x)) = Q w

  outer-Leaves :
      (o : Option (W × Reply Value)) (r : RunContext v) → HostLeft o → Leaves (outer v W o r)
  outer-Leaves none r h = tt
  outer-Leaves (some (w, reply)) r h = h

  module _ (callbacks : Assoc (Host v W)) (println : List Text → W → W)
      (all : AllHarmless callbacks) (prints : (t : List Text) (w : W) → Q w → Q (println t w)) where
    dispatch-Leaves :
        (m : Machine) (name : Text) (args : List Value) (s : State v W)
        → Q (s.0)
        → Leaves (dispatch v W callbacks println m name args s)
    unfolding dispatch log_func
    dispatch-Leaves m name args (w, r) h = elim (Bool-cases (name =~ codes "log")) [
      | inl t ↦ rw (t, dispatch, log_func) (prints _ w h)
      | inr t ↦ elim (Bool-cases (name =~ codes "removeCallback")) [
        | inl u ↦ rw (t, u, dispatch) h
        | inr u ↦ elim (Bool-cases (name =~ codes "addCallback")) [
          | inl x ↦ rw (t, u, x, dispatch) h
          | inr x ↦ rw (t, u, x, dispatch) (found (lookup name callbacks) refl)
        ]
      ]
    ]
      where
        found :
            (o : Option (Host v W))
            → lookup name callbacks ≡ o
            → Leaves {X = Reply Value} (elim o [
              | none ↦ some ((w, r), thrown (codes "is not defined"))
              | some f ↦ outer v W (f args w) r
            ])
        found none e = h
        found (some f) e = outer-Leaves (f args w) r (all name f e args w h)

    exec-Leaves :
        (m : Machine) (script : Script Machine Value) (s : State v W)
        → Q (s.0)
        → Leaves (exec v W (dispatch v W callbacks println m) script s)
    unfolding exec
    exec-Leaves m (ends m' r) s h = h
    exec-Leaves m (calls name args k) s h =
        go (dispatch v W callbacks println m name args s) (dispatch-Leaves m name args s h)
          (λ reply s' h'. exec-Leaves m (k reply) s' h')
      where
        go :
            (o : Option (State v W × Reply Value))
            → Leaves o
            → ((reply : Reply Value) (s' : State v W)
                → Q (s'.0)
                → Leaves (exec v W (dispatch v W callbacks println m) (k reply) s'))
            → Leaves (elim o [
              | none ↦ none
              | some (s', reply) ↦ exec v W (dispatch v W callbacks println m) (k reply) s'
            ])
        go none l rest = tt
        go (some (s', reply)) l rest = rest reply s' l

    finish-Leaves : (o : Option (Ended v W)) → Leaves o → RunLeaves (finish v W o)
    finish-Leaves none l = tt
    finish-Leaves (some ((w, r), (m, err e))) l = l
    finish-Leaves (some ((w, r), (m, ok value))) l = l

    module _ (m : Machine) where
      abbrev d : Text → List Value → State v W → Option (State v W × Reply Value)
      d = dispatch v W callbacks println m

      run_call-Leaves :
          (call : Option Call) (m' : Machine) (s : State v W)
          → Q (s.0)
          → RunLeaves (run_call v W d call m' s)
      unfolding run_call
      run_call-Leaves none m' (w, r) h = h
      run_call-Leaves (some call) m' (w, r) h = elim (Bool-cases (tagged v W call r.callbacks)) [
        | inl t ↦ rw (t, run_call) (found (lookup call.name r.functions))
        | inr t ↦ rw (t, run_call) h
      ]
        where
          called :
              (f : Function) (value : Result (Option Value))
              → RunLeaves (call_back v W d f value m' (w, r))
          called f (err e) = h
          called f (ok value) =
              finish-Leaves (exec v W d (v.call_function m' f value) (w, r))
                (exec-Leaves m (v.call_function m' f value) (w, r) h)

          found :
              (o : Option Function)
              → RunLeaves (elim o [
                | none ↦ some (w, (m', collect_result v W m' r none))
                | some f ↦ call_back v W d f (message v W m' call.message) m' (w, r)
              ])
          found none = h
          found (some f) = called f (message v W m' call.message)

      after_source-Leaves :
          (call : Option Call) (o : Option (Ended v W))
          → Leaves o
          → RunLeaves (after_source v W d call o)
      after_source-Leaves call none l = tt
      after_source-Leaves call (some ((w, r), (m', err e))) l = l
      after_source-Leaves call (some ((w, r), (m', ok value))) l = run_call-Leaves call m' (w, r) l

      run_prepared-Leaves :
          (target : Target v) (call : Option Call) (ready : Machine × Result (Unit {0})) (w : W)
          → Q w
          → RunLeaves (run_prepared v W d target call ready w)
      unfolding run_prepared
      run_prepared-Leaves target call (m', err e) w h = h
      run_prepared-Leaves target call (m', ok u) w h =
          after_source-Leaves call (exec v W d (v.run_script m' target.source target.origin) _)
            (exec-Leaves m (v.run_script m' target.source target.origin) _ h)

    -- A run of a script keeps whatever the functions that it is given keep.
    pub run-Leaves :
        (target : Target v) (call : Option Call) (m : Machine) (w : W)
        → Q w
        → RunLeaves (run v W callbacks println target call m w)
    unfolding run
    run-Leaves target call m w h = run_prepared-Leaves m target call _ w h
