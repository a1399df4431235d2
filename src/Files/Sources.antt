-- ===== src/Files/Sources.antt =====
-- The contents of files, and the log that carries changes of the tables over to them: LoadSource,
-- StoreSource, SourceModTime, logSync, runSync and sync.
use juicemud.Base.{
  ℕ, zero, suc, Bool, true, ◌&&◌, [], Option, none, some, Text, is_empty, not, ◌==◌, if◌then◌else◌,
  invalid, panic, Result, ok, err, ◌>>=◌, ◌>>◌, is_not_exist,
}
use juicemud.Dbm.{Bytes, Tkrzw, hash_get, hash_set, hash_del}
use juicemud.Structs.Keys.{put_uint64, get_uint64}
use juicemud.Files.{FileSync, Sql, Caller, row, no_row, fault}
use juicemud.Files.Access.{load_file, check_caller}

-- The condition of logSync for an entry that it takes.
unfoldable pub is_loggable : FileSync → Bool
is_loggable s =
    not (is_empty s.remove && is_empty s.set)
    && not (not (is_empty s.remove) && not (is_empty s.set))
    && not (not (is_empty s.set) && s.mod_time == 0)
    && s.id == 0

-- The part of Storage that files are in.
pub record Store (q : Sql) (t : Tkrzw) : Type 0 where
  pub sql : q.Db
  pub sources : t.Db
  pub mod_times : t.Db

module _ (q : Sql) where
  -- logSync
  unfoldable pub log_sync : q.Db → FileSync → Result q.Db
  unfolding is_loggable
  log_sync tx s = if is_loggable s then q.insert_sync tx s else err invalid

module _ (q : Sql) (t : Tkrzw) where
  -- The read of eight bytes in SourceModTime: of fewer it panics.
  abbrev pub mod_time_of : Option ℕ → Result ℕ
  mod_time_of none = err panic
  mod_time_of (some n) = ok n

  -- SourceModTime: where there is no record, it reads the bytes of nil.
  unfoldable pub source_mod_time : t.Db → Text → Result ℕ
  source_mod_time mod_times path = elim (hash_get t mod_times path) [
    | ok b ↦ mod_time_of (get_uint64 b)
    | err e ↦ if is_not_exist e then mod_time_of (get_uint64 []) else err e
  ]

  -- LoadSource
  unfoldable pub load_source : Store q t → Text → Result (Bytes × ℕ)
  unfolding source_mod_time
  load_source s path = elim (hash_get t s.sources path) [
    | ok value ↦ source_mod_time s.mod_times path >>= λ m. ok (value, m)
    | err e ↦ if is_not_exist e then ok ([], 0) else err e
  ]

  -- `err != nil && !errors.Is(err, os.ErrNotExist)`: what runSync lets pass
  abbrev pub unless_missing : Result (Unit {0}) → Result (Unit {0})
  unless_missing (ok u) = ok u
  unless_missing (err e) = if is_not_exist e then ok tt else err e

  abbrev pub then_run :
      Result (Unit {0})
      → Store q t
      → (Store q t → Store q t × Result (Unit {0}))
      → Store q t × Result (Unit {0})
  then_run (ok u) s f = f s
  then_run (err e) s f = (s, err e)

  -- runSync
  unfoldable pub run_sync : Store q t → FileSync → Store q t × Result (Unit {0})
  run_sync s f =
      let (cut, dropped) = hash_del t s.sources f.remove in
      let (cut_times, dropped_time) = hash_del t s.mod_times f.remove in
      let (times, timed) = hash_set t s.mod_times f.set (put_uint64 f.mod_time) true in
      let (contents, filled) = hash_set t s.sources f.set f.content true in
      let remove_it : Store q t × Result (Unit {0}) =
        then_run (unless_missing dropped) (record s { sources = cut })
          λ s'. (record s' { mod_times = cut_times }, unless_missing dropped_time) in
      let set_it : Store q t × Result (Unit {0}) =
        then_run timed (record s { mod_times = times })
          λ s'. (record s' { sources = contents }, filled) in
      if not (is_empty f.remove)
      then remove_it
      else if not (is_empty f.set)
      then set_it
      else (s, ok tt)

  -- The deletion of an entry in sync: an error of it is not looked at, unless it says that there
  -- was none.
  abbrev pub forget : Store q t → FileSync → Result (Store q t)
  forget s f = elim (q.delete_sync s.sql f.id) [
    | ok d ↦ ok (record s { sql = d })
    | err e ↦ if is_not_exist e then err e else ok s
  ]

  -- sync, on fuel: the loop ends at the first SELECT that gives no entry, be it that it fails.
  -- `none` means that the fuel ran out.
  unfoldable pub sync : ℕ → Store q t → Option (Store q t × Result (Unit {0}))
  sync zero s = none
  sync (suc fuel) s = elim (q.select_oldest_sync s.sql) [
    | no_row ↦ some (s, ok tt)
    | fault n ↦ some (s, ok tt)
    | row f ↦
        let (s', r) = run_sync s f in
        elim r [
          | err e ↦ some (s', err e)
          | ok _ ↦ elim (forget s' f) [ ok s'' ↦ sync fuel s'' | err e ↦ some (s', err e) ]
        ]
  ]

  -- The transaction of StoreSource, at the time `now`.
  unfoldable pub store_source_tx :
      Caller → Text → Bytes → ℕ → q.Db → q.Db → Result (q.Db × Unit {0})
  unfolding log_sync
  store_source_tx c path content now db tx = do
    file ← load_file q db tx c path
    check_caller q db c file.write_group
    tx' ←
        log_sync q tx
          (record { id = 0; remove = []; set = file.path; content = content; mod_time = now })
    ok (tx', tt)

  -- What every operation on files does after its transaction: sync, if it went through.
  unfoldable pub commit_and_sync :
      ℕ → Store q t → q.Db × Result (Unit {0}) → Option (Store q t × Result (Unit {0}))
  unfolding sync
  commit_and_sync fuel s (db, err e) = some (record s { sql = db }, err e)
  commit_and_sync fuel s (db, ok u) = sync fuel (record s { sql = db })

  -- StoreSource
  unfoldable pub store_source :
      ℕ → Caller → Text → Bytes → ℕ → Store q t → Option (Store q t × Result (Unit {0}))
  unfolding store_source_tx commit_and_sync
  store_source fuel c path content now s =
      commit_and_sync fuel s (q.write s.sql (store_source_tx c path content now s.sql))
