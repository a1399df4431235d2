-- ===== src/Js/Tests.antt =====
-- A script that adds a callback, removes one, and ends.
use juicemud.Base.{
  ℕ, ◌≡◌, refl, true, false, [], ◌∷◌, some, Text, ◌=~◌, codes, ok, lookup, insert, erase,
}
use juicemud.Js.{V8, Script, ends, calls, RunContext, add_js_callback, remove_js_callback}
use juicemud.Js.Running.{dispatch, exec}
use juicemud.Js.Registry.{IsInStep, Leaves, exec-Leaves}

abbrev engine : V8
engine = record {
  Machine = ℕ;
  Value = Text;
  Function = Text;
  is_string = λ v. true;
  is_array = λ v. true;
  is_object = λ v. true;
  is_function = λ v. true;
  is_null = λ v. false;
  string = λ v. v;
  integer = λ v. 0;
  as_function = λ v. ok v;
  json_parse = λ m t. ok t;
  json_stringify = λ m v. ok v;
  bind = λ m t. ok m;
  set_global = λ m t v. ok m;
  get_global = λ m t. ok t;
  run_script = λ m source origin. ends m (ok []);
  call_function = λ m f v. ends m (ok f);
  unmarshal_tags = λ t. ok [];
}

abbrev listening : Script ℕ Text
listening =
    calls (codes "addCallback") (codes "hi" ∷ codes "[]" ∷ codes "f" ∷ [])
      λ r. calls (codes "removeCallback") (codes "bye" ∷ []) λ s. ends 7 (ok [])

abbrev fresh : RunContext engine
fresh = record { callbacks = []; functions = [] }

fresh-IsInStep : IsInStep engine fresh
unfolding lookup
fresh-IsInStep = record { same = λ k. refl; tagged = λ k tags e. absurd (cc) }

exec-Leaves_example :
    Leaves engine ℕ (exec engine ℕ (dispatch engine ℕ [] (λ t w. w) 7) listening (0, fresh))
exec-Leaves_example = exec-Leaves engine ℕ [] (λ t w. w) 7 listening (0, fresh) fresh-IsInStep

listens :
    exec engine ℕ (dispatch engine ℕ [] (λ t w. w) 7) listening (0, fresh)
    ≡ some (
      (
        0,
        record {
          callbacks = (codes "hi", ([], true) ∷ []) ∷ [];
          functions = (codes "hi", codes "f") ∷ [];
        },
      ),
      (7, ok []),
    )
unfolding exec dispatch lookup insert erase ◌=~◌ add_js_callback remove_js_callback
listens = refl
