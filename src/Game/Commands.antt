-- ===== src/Game/Commands.antt =====
-- game/connection.go: the commands, and Process, which reads them from the terminal.
use juicemud.Base.{
  ℕ, Bool, true, false, ◌||◌, List, [], ◌∷◌, ◌++◌, Option, none, some, Text, ◌=~◌, ◌==◌, codes,
  Result, ok, err, invalid, is_not_exist, insert, erase, if◌then◌else◌, length,
}
use juicemud.Base.Act.{Act, ◌>>=◌, ◌>>◌, pure, lift}
use juicemud.Structs.{join}
use juicemud.Files.{User, File, Group, Caller}
use juicemud.Files.Access.{load_file, file_groups, user_access_to_group}
use juicemud.Files.Ops.{chwrite_file, chread_file, user_groups}
use juicemud.Objects.{Movement}
use juicemud.Fanout.{Fanout, push, drop}
use juicemud.Lang.{declare}
use juicemud.Game.{Parts, World, console_of}
use juicemud.Game.Storage.{Refresh}
use juicemud.Game.Start.{wizards_group}
use juicemud.Game.Terminal.{
  Connection, print, read_line, until, sorted, connected_user, connection_object, describe_long,
}

module _ (p : Parts) where
  abbrev pub C : Type 0
  C = Connection p

  -- The type command
  pub record Command : Type 0 where
    pub names : List Text
    pub wizard : Bool
    pub f : Text → Act C (Unit {0})

  -- `cmd.names[word]`
  unfoldable pub is_named : Text → List Text → Bool
  is_named word [] = false
  is_named word (name ∷ names) = name =~ word || is_named word names

  -- The bytes of `\s` in a regular expression
  abbrev is_blank : ℕ → Bool
  is_blank c = c == 9 || c == 10 || c == 12 || c == 13 || c == 32

  -- The first part of a line that is split at blanks.
  unfoldable pub first_word : Text → Text
  first_word [] = []
  first_word (c ∷ t) = let rest = first_word t in if is_blank c then [] else c ∷ rest

  -- The context of the connection
  abbrev pub context : C → Caller
  context c = record { is_main = false; user = c.caller }

  abbrev pub db_of : C → p.sql.Db
  db_of c = (c.world).files.sql

  -- An operation on the tables, in the context of the connection
  abbrev on_files : (Caller → p.sql.Db → p.sql.Db × Result (Unit {0})) → Act C (Unit {0})
  on_files op c =
      let (db, r) = op (context c) (db_of c) in
      let w = c.world in
      some (record c { world = record w { files = record (w.files) { sql = db } } }, r)

  abbrev pub print_all : List Text → Act C (Unit {0})
  print_all [] = pure tt
  print_all (t ∷ ts) = print p t >> print_all ts

  abbrev pub group_names : List Group → List Text
  group_names [] = []
  group_names (g ∷ gs) = g.name ∷ group_names gs

  -- groups
  unfoldable pub groups_command : Text → Act C (Unit {0})
  unfolding connected_user user_groups print
  groups_command s = do
    user ← connected_user p
    groups ← λ c. some (c, user_groups p.sql (db_of c) user)
    print p (codes "Member of " ++ declare p.singular p.plural (length groups) (codes "groups"))
    print_all (sorted p (group_names groups))

  -- /create
  unfoldable pub create_command : Text → Act C (Unit {0})
  unfolding print
  create_command s = do
    parts ← lift (p.split_posix s)
    if length parts == 2 then pure tt else print p (codes "usage: /create [path]")

  -- `consoleByObjectID.Set(id, f(consoleByObjectID.Get(id)))`
  abbrev set_console : (Option Fanout → Option Fanout) → Text → Act C (Unit {0})
  set_console f id c =
      let w = c.world in
      let console = f (console_of p id w.consoles) in
      some (record c { world = record w { consoles = insert id console w.consoles } }, ok tt)

  -- addConsole
  unfoldable pub add_console : Text → Act C (Unit {0})
  unfolding push
  add_console id c = set_console (λ f. push f c.term) id c

  -- delConsole
  unfoldable pub del_console : Text → Act C (Unit {0})
  unfolding drop
  del_console id c = set_console (λ f. drop f c.term) id c

  -- /debug
  unfoldable pub debug_command : Text → Act C (Unit {0})
  unfolding connected_user add_console
  debug_command s = do user ← connected_user p; add_console user.object

  -- /undebug
  unfoldable pub undebug_command : Text → Act C (Unit {0})
  unfolding connected_user del_console
  undebug_command s = do user ← connected_user p; del_console user.object

  -- The branches of !chwrite and !chread over the parts of the line.
  abbrev with_group :
      (Text → Text → Caller → p.sql.Db → p.sql.Db × Result (Unit {0}))
      → Text
      → List Text
      → Act C (Unit {0})
  with_group op usage (cmd ∷ path ∷ []) = on_files (op path [])
  with_group op usage (cmd ∷ path ∷ group ∷ []) = on_files (op path group)
  with_group op usage parts = print p usage

  -- !chwrite
  unfoldable pub chwrite_command : Text → Act C (Unit {0})
  unfolding chwrite_file print
  chwrite_command s = do
    parts ← lift (p.split_posix s)
    with_group (λ path group caller db. chwrite_file p.sql caller path group db)
        (codes "usage: /chwrite [path] [writer group]") parts

  -- !chread
  unfoldable pub chread_command : Text → Act C (Unit {0})
  unfolding chread_file print
  chread_command s = do
    parts ← lift (p.split_posix s)
    with_group (λ path group caller db. chread_file p.sql caller path group db)
        (codes "usage: /chread [path] [reader group]") parts

  -- A row of the table that !ls prints.
  abbrev row_text : Text → Group × Group → Text
  row_text path (r, w) = join (codes " ") (path ∷ r.name ∷ w.name ∷ [])

  -- The rows of the children
  unfoldable pub child_rows : List File → C → Result (List Text)
  unfolding file_groups
  child_rows [] c = ok []
  child_rows (child ∷ children) c = elim (file_groups p.sql (db_of c) child) [
    | err e ↦ err e
    | ok groups ↦ elim (child_rows children c) [
      | err e ↦ err e
      | ok rows ↦ ok (row_text child.path groups ∷ rows)
    ]
  ]

  abbrev with_children : File → List Text → C → Result (List Text)
  with_children f rows c =
      if f.dir
      then elim (p.sql.select_children (db_of c) f.id) [
        | err e ↦ err e
        | ok children ↦ elim (child_rows children c) [ err e ↦ err e | ok more ↦ ok (rows ++ more) ]
      ]
      else ok rows

  -- The rows for one of the paths; a path that there is no file at has a row that says so.
  unfoldable pub path_rows : Text → C → Result (List Text)
  unfolding load_file child_rows
  path_rows path c = elim (load_file p.sql (db_of c) (db_of c) (context c) path) [
    | err e ↦ if is_not_exist e then ok ((path ++ codes ": file does not exist") ∷ []) else err e
    | ok f ↦ elim (file_groups p.sql (db_of c) f) [
      | err e ↦ err e
      | ok groups ↦ with_children f (row_text f.path groups ∷ []) c
    ]
  ]

  unfoldable pub all_rows : List Text → C → Result (List Text)
  unfolding path_rows
  all_rows [] c = ok []
  all_rows (path ∷ paths) c = elim (path_rows path c) [
    | err e ↦ err e
    | ok rows ↦ elim (all_rows paths c) [ err e ↦ err e | ok more ↦ ok (rows ++ more) ]
  ]

  abbrev listing : List Text → Act C (Unit {0})
  listing [] = pure tt
  listing (cmd ∷ paths) = do
    rows ← λ c. some (c, all_rows paths c)
    print_all (codes "Path Read Write" ∷ rows)

  -- !ls
  unfoldable pub ls_command : Text → Act C (Unit {0})
  unfolding all_rows print
  ls_command s = do parts ← lift (p.split_posix s); listing parts

  module _ (handler : Movement → Act (World p) (Unit {0})) (ref : Refresh p) where
    -- /state
    unfoldable pub state_command : Text → Act C (Unit {0})
    unfolding connection_object print
    state_command s = do
      obj ← connection_object p handler ref
      js ← lift (p.indented obj.state)
      print p js

    -- l, look
    unfoldable pub look_command : Text → Act C (Unit {0})
    unfolding describe_long
    look_command s = describe_long p handler ref

    abbrev for_all : List Text → (Text → Act C (Unit {0})) → Command
    for_all names f = record { names = names; wizard = false; f = f }

    abbrev for_wizards : Text → (Text → Act C (Unit {0})) → Command
    for_wizards name f = record { names = name ∷ []; wizard = true; f = f }

    abbrev pub commands : List Command
    commands =
        for_all (codes "groups" ∷ []) groups_command
        ∷ for_wizards (codes "/create") create_command
        ∷ for_wizards (codes "/state") state_command
        ∷ for_wizards (codes "/debug") debug_command
        ∷ for_wizards (codes "/undebug") undebug_command
        ∷ for_all (codes "l" ∷ codes "look" ∷ []) look_command
        ∷ for_wizards (codes "!chwrite") chwrite_command
        ∷ for_wizards (codes "!chread") chread_command
        ∷ for_wizards (codes "!ls") ls_command
        ∷ []

  -- `if err := cmd.f(c, line); err != nil { fmt.Fprintln(c.term, err) }`
  abbrev pub reported : Option (C × Result (Unit {0})) → Option (C × Result (Unit {0}))
  reported none = none
  reported (some (c, ok u)) = some (c, ok u)
  reported (some (c, err e)) = some (record c { output = c.output ++ codes "error" ∷ [] }, ok tt)

  unfoldable pub run_command : Command → Text → Act C (Unit {0})
  run_command cmd line c = reported (cmd.f line c)

  -- Whether the user is one of the wizards.
  abbrev pub is_wizard : User → C → Result Bool
  is_wizard user c = user_access_to_group p.sql (db_of c) user wizards_group

  -- What the loop of Process does with a command that the line names.
  unfoldable pub named_command : User → Command → Text → Act C (Unit {0})
  unfolding run_command
  named_command user cmd line = do
    allowed ← λ c. some (c, if cmd.wizard then is_wizard user c else ok true)
    if allowed then run_command cmd line else pure tt

  -- The loop of Process over the commands.
  unfoldable pub run_commands : User → List Command → Text → Act C (Unit {0})
  unfolding named_command is_named first_word
  run_commands user [] line = pure tt
  run_commands user (cmd ∷ cmds) line = do
    if is_named (first_word line) cmd.names then named_command user cmd line else pure tt
    run_commands user cmds line

  module _ (handler : Movement → Act (World p) (Unit {0})) (ref : Refresh p) where
    -- One turn of the loop of Process.
    unfoldable pub process_line : User → Act C (Unit {0})
    unfolding read_line run_commands
    process_line user = do line ← read_line p; run_commands user (commands handler ref) line

    abbrev enter_environment : User → C → C
    enter_environment user c = record c { environments = insert user.object true c.environments }

    abbrev leave_environment :
        User → Option (C × Result (Unit {0})) → Option (C × Result (Unit {0}))
    leave_environment user none = none
    leave_environment user (some (c, r)) =
        some (record c { environments = erase user.object c.environments }, r)

    abbrev process_as : ℕ → Option User → C → Option (C × Result (Unit {0}))
    process_as fuel none c = some (c, err invalid)
    process_as fuel (some user) c =
        leave_environment user
          (until p fuel (process_line user >> pure none) (enter_environment user c))

    -- Process
    unfoldable pub process : ℕ → Act C (Unit {0})
    unfolding process_line until
    process fuel c = process_as fuel c.user c
