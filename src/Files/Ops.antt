-- ===== src/Files/Ops.antt =====
-- The operations on files, groups and users that change rows: EnsureFile, MoveFile, DelFile,
-- CreateDir, ChwriteFile, ChreadFile, EnsureGroup, UserGroups and StoreUser. `db` is what the
-- access checks read, outside of the transaction, whose state is `tx`.
use juicemud.Base.{
  ℕ, zero, suc, Bool, true, false, List, [], ◌∷◌, Option, none, some, Text, ◌=~◌, ◌==◌,
  if◌then◌else◌, exist, invalid, panic, Result, ok, err, ◌>>=◌, ◌>>◌, is_not_exist,
}
use juicemud.Dbm.{Tkrzw}
use juicemud.Files.{File, FileSync, Group, User, GroupMember, Sql, Caller, no_file}
use juicemud.Files.Access.{load_file, check_caller, load_group_by_name, load_group_by_id}
use juicemud.Files.Sources.{Store, log_sync, load_source, commit_and_sync}
use juicemud.Files.Paths.{dir, base}

-- A result that the fuel may not be enough for.
abbrev pub on_ok : {A B : Type 0} → Option (Result A) → (A → Option (Result B)) → Option (Result B)
on_ok none f = none
on_ok (some (err e)) f = some (err e)
on_ok (some (ok a)) f = f a

abbrev pub on_result : {A B : Type 0} → Result A → (A → Option (Result B)) → Option (Result B)
on_result (err e) f = some (err e)
on_result (ok a) f = f a

abbrev pub removal : Text → FileSync
removal path = record { id = 0; remove = path; set = []; content = []; mod_time = 0 }

module _ (q : Sql) where
  open q use {Db}

  -- The transaction of ChwriteFile
  unfoldable pub chwrite_file_tx : Db → Caller → Text → Text → Db → Result (Db × Unit {0})
  unfolding load_file load_group_by_name
  chwrite_file_tx db c path writer tx = do
    file ← load_file q db tx c path
    check_caller q db c file.write_group
    wg ← load_group_by_name q tx writer
    check_caller q db c wg.id
    tx' ← q.upsert_file tx (record file { write_group = wg.id })
    ok (tx', tt)

  -- The transaction of ChreadFile: it does not ask whether the caller may access the new group.
  unfoldable pub chread_file_tx : Db → Caller → Text → Text → Db → Result (Db × Unit {0})
  unfolding load_file load_group_by_name
  chread_file_tx db c path reader tx = do
    file ← load_file q db tx c path
    check_caller q db c file.write_group
    rg ← load_group_by_name q tx reader
    tx' ← q.upsert_file tx (record file { read_group = rg.id })
    ok (tx', tt)

  -- ChwriteFile
  unfoldable pub chwrite_file : Caller → Text → Text → Db → Db × Result (Unit {0})
  unfolding chwrite_file_tx
  chwrite_file c path writer db = q.write db (chwrite_file_tx db c path writer)

  -- ChreadFile
  unfoldable pub chread_file : Caller → Text → Text → Db → Db × Result (Unit {0})
  unfolding chread_file_tx
  chread_file c path reader db = q.write db (chread_file_tx db c path reader)

  abbrev pub new_file : File → Text → File
  new_file parent path = record {
    id = 0;
    parent = parent.id;
    name = base path;
    path = path;
    dir = false;
    read_group = parent.read_group;
    write_group = parent.write_group;
  }

  -- The transaction of EnsureFile
  unfoldable pub ensure_file_tx : Db → Caller → Text → Db → Result (Db × (File × Bool))
  unfolding load_file
  ensure_file_tx db c path tx = elim (load_file q db tx c path) [
    | ok file ↦ check_caller q db c file.write_group >> ok (tx, (file, false))
    | err e ↦
        if is_not_exist e
        then (load_file q db tx c (dir path) >>= λ parent.
            check_caller q db c parent.write_group
            >> (q.upsert_file tx (new_file parent path) >>= λ tx'.
                ok (tx', (new_file parent path, true))))
        else err e
  ]

  -- EnsureFile; the row's id is the database's.
  unfoldable pub ensure_file : Caller → Text → Db → Db × Result (File × Bool)
  unfolding ensure_file_tx
  ensure_file c path db = q.write db (ensure_file_tx db c path)

  -- The rows of a directory that CreateDir makes: their Parent is not set.
  abbrev pub new_dir : File → Text → File
  new_dir parent path = record (new_file parent path) { parent = 0; dir = true }

  abbrev root : Text
  root = b'/' ∷ []

  -- The transaction of CreateDir
  unfoldable pub create_dir_tx : Db → Caller → Text → Db → Result (Db × Unit {0})
  unfolding load_file
  create_dir_tx db c path tx = elim (load_file q db tx c path) [
    | ok existing ↦ if existing.dir then ok (tx, tt) else err exist
    | err e ↦
        if is_not_exist e
        then ((if path =~ root then ok no_file else load_file q db tx c (dir path)) >>= λ parent.
            check_caller q db c parent.write_group
            >> (q.upsert_file tx (new_dir parent path) >>= λ tx'. ok (tx', tt)))
        else err e
  ]

  -- CreateDir
  unfoldable pub create_dir : Caller → Text → Db → Db × Result (Unit {0})
  unfolding create_dir_tx
  create_dir c path db = q.write db (create_dir_tx db c path)

  abbrev pub del_all : (Text → Db → Option (Result Db)) → List File → Db → Option (Result Db)
  del_all del [] tx = some (ok tx)
  del_all del (child ∷ children) tx = on_ok (del child.path tx) (del_all del children)

  abbrev if_none : List File → Db → Result Db
  if_none [] tx = ok tx
  if_none (f ∷ fs) tx = err invalid

  -- delFileIfExists, on fuel for the depth of the recursion. An error of loadFile other than that
  -- there is no file leaves a nil file, whose write group is then read.
  unfoldable pub del_file_if_exists : ℕ → Db → Caller → Text → Bool → Db → Option (Result Db)
  unfolding load_file log_sync
  del_file_if_exists zero db c path recursive tx = none
  del_file_if_exists (suc fuel) db c path recursive tx = elim (load_file q db tx c path) [
    | err e ↦ some (if is_not_exist e then ok tx else err panic)
    | ok file ↦ on_result (check_caller q db c file.write_group) λ _.
        on_result (q.select_children tx file.id) λ children.
          on_ok
            (if recursive
              then del_all (λ p tx'. del_file_if_exists fuel db c p true tx') children tx
              else some (if_none children tx))
            λ emptied.
              on_result (q.delete_file emptied file.id) λ tx'. some (log_sync q tx' (removal path))
  ]

  abbrev pub done : Option (Result Db) → Option (Result (Db × Unit {0}))
  done none = none
  done (some (ok tx)) = some (ok (tx, tt))
  done (some (err e)) = some (err e)

  -- A transaction that may not have the fuel to end.
  abbrev pub write_fuelled :
      {A : Type 0} → Db → (Db → Option (Result (Db × A))) → Option (Db × Result A)
  write_fuelled db f = elim (f db) [ none ↦ none | some r ↦ some (q.write db λ tx. r) ]

  -- EnsureGroup
  unfoldable pub ensure_group : Group → Db → Db × Result Bool
  unfolding load_group_by_name
  ensure_group group db = q.write db λ tx. elim (load_group_by_name q tx group.name) [
    | ok found ↦ if found.owner_group == group.owner_group then ok (tx, false) else err invalid
    | err e ↦ if is_not_exist e then q.upsert_group tx group >>= (λ tx'. ok (tx', true)) else err e
  ]

  -- `ids[member.Group] = true`: each group once
  abbrev pub add_id : ℕ → List ℕ → List ℕ
  add_id id [] = id ∷ []
  add_id id (i ∷ is) = let rest = add_id id is in if i == id then i ∷ is else i ∷ rest

  abbrev pub group_ids : List GroupMember → List ℕ → List ℕ
  group_ids [] ids = ids
  group_ids (m ∷ ms) ids = group_ids ms (add_id m.group ids)

  abbrev pub load_groups : Db → List ℕ → Result (List Group)
  load_groups db [] = ok []
  load_groups db (id ∷ ids) = do g ← load_group_by_id q db id; gs ← load_groups db ids; ok (g ∷ gs)

  -- UserGroups: one order of the many that the map may give
  unfoldable pub user_groups : Db → User → Result (List Group)
  unfolding load_group_by_id
  user_groups db user =
      q.select_members db user.id >>= λ members. load_groups db (group_ids members [])

  -- StoreUser
  unfoldable pub store_user : Db → User → Bool → Result Db
  store_user db user overwrite = q.upsert_user db user overwrite

module _ (q : Sql) (t : Tkrzw) where
  -- The transaction of MoveFile: it reads the content before the rows are changed.
  unfoldable pub move_file_tx :
      ℕ → Store q t → Caller → Text → Text → q.Db → Option (Result (q.Db × Unit {0}))
  unfolding load_file load_source log_sync del_file_if_exists
  move_file_tx fuel s c old_path new_path tx =
      on_result (load_file q s.sql tx c old_path) λ to_move.
        on_result (check_caller q s.sql c to_move.write_group) λ _.
          on_result (load_source q t s old_path) λ (content, mod_time).
            on_result (load_file q s.sql tx c (dir new_path)) λ new_parent.
              on_result (check_caller q s.sql c new_parent.write_group) λ _.
                on_ok (del_file_if_exists q fuel s.sql c new_path false tx) λ cleared. some do
                  moved ← q.upsert_file cleared (record to_move {
                    parent = new_parent.id;
                    path = new_path;
                    name = base new_path;
                  })
                  removed ← log_sync q moved (removal old_path)
                  logged ← log_sync q removed (record {
                    id = 0;
                    remove = [];
                    set = new_path;
                    content = content;
                    mod_time = mod_time;
                  })
                  ok (logged, tt)

  abbrev commit :
      ℕ → Store q t → Option (q.Db × Result (Unit {0})) → Option (Store q t × Result (Unit {0}))
  commit fuel s none = none
  commit fuel s (some r) = commit_and_sync q t fuel s r

  -- MoveFile
  unfoldable pub move_file :
      ℕ → Caller → Text → Text → Store q t → Option (Store q t × Result (Unit {0}))
  unfolding move_file_tx commit_and_sync
  move_file fuel c old_path new_path s =
      commit fuel s (write_fuelled q s.sql (move_file_tx fuel s c old_path new_path))

  -- DelFile
  unfoldable pub del_file : ℕ → Caller → Text → Store q t → Option (Store q t × Result (Unit {0}))
  unfolding del_file_if_exists commit_and_sync
  del_file fuel c path s =
      commit fuel s
        (write_fuelled q s.sql λ tx. done q (del_file_if_exists q fuel s.sql c path true tx))
