-- ===== src/Game/Start.antt =====
-- game/game.go: New, createObject and createUser. The goroutine of the queue is Queue.run_due with
-- handle_event of Run; the boot script's errors are only logged.
use juicemud.Base.{
  ℕ, suc, true, false, List, [], ◌∷◌, Option, none, some, Text, codes, Result, ok, err,
  if◌then◌else◌, ◌++◌,
}
use juicemud.Base.Act.{Act, ◌>>=◌, ◌>>◌, pure, runs}
use juicemud.Structs.{Object, make_object}
use juicemud.Files.{User, Caller}
use juicemud.Files.Sources.{Store, store_source, load_source}
use juicemud.Files.Ops.{create_dir, ensure_file, ensure_group, store_user}
use juicemud.Objects.{Movement, ensure_object}
use juicemud.Js.Running.{Run, run}
use juicemud.Game.{Parts, World}
use juicemud.Game.Storage.{store_object}
use juicemud.Game.Scripts.{State, add_global_callbacks}

abbrev pub user_source : Text
user_source = codes "/user.js"

abbrev pub genesis_source : Text
genesis_source = codes "/genesis.js"

abbrev pub boot_source : Text
boot_source = codes "/boot.js"

abbrev pub genesis_id : Text
genesis_id = codes "genesis"

abbrev pub wizards_group : Text
wizards_group = codes "wizards"

-- initialSources, in one order of the many that the map may give.
abbrev initial_sources : List (Text × Text)
initial_sources =
    (boot_source, codes "// This code is run each time the game server starts.")
    ∷ (
      user_source,
      codes
          "// This code runs all users.\nsetDescriptions([\n    {\n        short: 'a person',\n    }\n]);\n",
    )
    ∷ (
      genesis_source,
      codes
          "// This code runs the room where newly created users are dropped.\nsetDescriptions([\n  {\n\t\tshort: 'Black cosmos',\n\t\tlong: 'This is the darkness of space before creation. No stars twinkle.',\n  },\n]);\n",
    )
    ∷ []

-- The setup of the genesis object
abbrev set_up_genesis : Object → Result Object
set_up_genesis o = ok (record o { id = genesis_id; source_path = genesis_source })

abbrev main_context : Caller
main_context = record { is_main = true; user = none }

module _ (p : Parts) where
  abbrev files_left : {A : Type 0} → World p → p.sql.Db × Result A → World p × Result A
  files_left w (db, r) = (record w { files = record (w.files) { sql = db } }, r)

  abbrev store_left :
      World p
      → Option (Store p.sql p.tkrzw × Result (Unit {0}))
      → Option (World p × Result (Unit {0}))
  store_left w none = none
  store_left w (some (s, r)) = some (record w { files = s }, r)

  -- The loop of New over the sources; `fuel` is for sync.
  unfoldable pub ensure_sources : ℕ → List (Text × Text) → Act (World p) (Unit {0})
  ensure_sources fuel [] = pure tt
  ensure_sources fuel ((path, source) ∷ sources) = do
    found ← runs λ w. files_left w (ensure_file p.sql main_context path w.files.sql)
    let stored : Act (World p) (Unit {0}) =
        λ w. store_left w (store_source p.sql p.tkrzw fuel main_context path source w.time w.files)
    if found.1 then stored else pure tt
    ensure_sources fuel sources

  abbrev boot_left : Option (Run p.v8 (State p)) → Option (World p × Result (Unit {0}))
  boot_left none = none
  boot_left (some ((w, o), (m, r))) = some (record w { machines = w.machines ++ m ∷ [] }, ok tt)

  -- The run of the boot script; there is no object to it. The console is the standard error output.
  unfoldable pub run_boot : Text → Act (World p) (Unit {0})
  run_boot source w = elim (w.machines) [
    | [] ↦ none
    | m ∷ machines ↦ boot_left (
        run p.v8 (State p) (add_global_callbacks p m []) (λ words s. s)
          (record { source = source; origin = boot_source; state = codes "{}" }) none m
          (record w { machines = machines }, make_object []))
  ]

  -- New
  unfoldable pub new_game : ℕ → Act (World p) (Unit {0})
  unfolding ensure_sources run_boot
  new_game fuel = do
    runs λ w. files_left w (create_dir p.sql main_context (codes "/") w.files.sql)
    ensure_sources fuel initial_sources
    runs λ w.
        let (db, r) =
          ensure_object p.tkrzw p.object_bytes (make_object []) w.objects genesis_id
            set_up_genesis in
        (record w { objects = db }, r)
    runs λ w.
        files_left w (
          ensure_group p.sql (record { id = 0; name = wizards_group; owner_group = 0 }) w.files.sql)
    boot ← λ w. some (w, load_source p.sql p.tkrzw w.files boot_source)
    run_boot (boot.0)

  module _ (handler : Movement → Act (World p) (Unit {0})) where
    -- createObject; the function that sets the object up gives it, and something more.
    unfoldable pub create_object :
        {A : Type 0} → (Object → Act (World p) (Object × A)) → Act (World p) A
    unfolding store_object
    create_object f = do
      id ← λ w. some (record w { counter = suc w.counter }, p.object_id w.counter)
      made ← f (make_object id)
      store_object p handler none (made.0)
      pure (made.1)

    abbrev stored_user : World p → Result p.sql.Db → World p × Result (Unit {0})
    stored_user w (err e) = (w, err e)
    stored_user w (ok db) = (record w { files = record (w.files) { sql = db } }, ok tt)

    -- createUser: the user, with the object that is made for it.
    unfoldable pub create_user : User → Act (World p) User
    unfolding create_object store_user
    create_user user = create_object λ object.
        let owner : User = record user { object = object.id } in
        runs (λ w. stored_user w (store_user p.sql w.files.sql owner false))
        >> pure (record object { source_path = user_source; location = genesis_id }, owner)
