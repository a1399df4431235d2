-- ===== src/Fs.antt =====
-- fs/fs.go: the file system that WebDAV serves, over the storage of files. The context of a request
-- is its Caller; `fuel` is that of the storage's operations.
pub mod Pathify
mod Tests
use juicemud.Base.{
  ℕ, zero, suc, ◌+◌, ◌≡◌, Bool, true, false, List, [], ◌∷◌, ◌++◌, Option, none, some, Text, ◌=~◌,
  ◌==◌, Error, Result, ok, err, ◌>>=◌, if◌then◌else◌, length,
}
use juicemud.Dbm.{Bytes, Tkrzw}
use juicemud.Files.{File, Sql, Caller}
use juicemud.Files.Access.{load_file}
use juicemud.Files.Sources.{Store, load_source, store_source}
use juicemud.Files.Ops.{ensure_file, create_dir, del_file, move_file}
use juicemud.Dav.{FileInfo}
use juicemud.Fs.Pathify.{pathify}

-- The type writeBuffer: what was written, and the file that it is for.
pub record WriteBuffer : Type 0 where
  pub buffer : Bytes
  pub file : File

-- writeBuffer.Write
pub buffer_write : WriteBuffer → Bytes → WriteBuffer
buffer_write w b = record w { buffer = w.buffer ++ b }

module _ (q : Sql) (t : Tkrzw) where
  -- Fs.Read
  unfoldable pub read : Caller → Text → Store q t → Result Bytes
  unfolding pathify load_file load_source
  read c path s = do
    file ← load_file q s.sql s.sql c (pathify path)
    (content, mod_time) ← load_source q t s (pathify path)
    ok content

  -- Fs.Write
  unfoldable pub write : Caller → Text → Store q t → Store q t × Result WriteBuffer
  unfolding pathify ensure_file
  write c path s =
      let (db, r) = ensure_file q c (pathify path) s.sql in
      (record s { sql = db }, (r >>= λ (file, created). ok (record { buffer = []; file = file })))

  -- writeBuffer.Close, at the time `now`
  unfoldable pub close :
      ℕ → Caller → WriteBuffer → ℕ → Store q t → Option (Store q t × Result (Unit {0}))
  unfolding store_source
  close fuel c w now s = store_source q t fuel c w.file.path w.buffer now s

  -- Fs.stat: the root is taken for the file with the id 0.
  unfoldable pub stat_file : Store q t → File → Result FileInfo
  unfolding load_source
  stat_file s file =
      if file.id == 0
      then ok (record { name = b'/' ∷ []; size = 0; mod_time = none; is_dir = true })
      else load_source q t s file.path >>= λ (content, mod_time). ok (record {
        name = file.path;
        size = length content;
        mod_time = some mod_time;
        is_dir = file.dir;
      })

  -- Fs.Stat
  unfoldable pub stat : Caller → Text → Store q t → Result FileInfo
  unfolding pathify load_file stat_file
  stat c path s = load_file q s.sql s.sql c (pathify path) >>= stat_file s

  -- Fs.Remove
  unfoldable pub remove : ℕ → Caller → Text → Store q t → Option (Store q t × Result (Unit {0}))
  unfolding pathify del_file
  remove fuel c path s = del_file q t fuel c (pathify path) s

  -- Fs.Mkdir
  unfoldable pub mkdir : Caller → Text → Store q t → Store q t × Result (Unit {0})
  unfolding pathify create_dir
  mkdir c path s = let (db, r) = create_dir q c (pathify path) s.sql in (record s { sql = db }, r)

  abbrev pub stat_all : Store q t → List File → Result (List FileInfo)
  stat_all s [] = ok []
  stat_all s (f ∷ fs) = do i ← stat_file s f; is ← stat_all s fs; ok (i ∷ is)

  -- Fs.List, with LoadChildren
  unfoldable pub list : Caller → Text → Store q t → Result (List FileInfo)
  unfolding pathify load_file stat_file
  list c path s = do
    file ← load_file q s.sql s.sql c (pathify path)
    children ← q.select_children s.sql file.id
    stat_all s children

  -- Fs.Rename, to the path of the URL
  unfoldable pub rename :
      ℕ → Caller → Text → Text → Store q t → Option (Store q t × Result (Unit {0}))
  unfolding pathify move_file
  rename fuel c old_path new_path s = move_file q t fuel c (pathify old_path) (pathify new_path) s
