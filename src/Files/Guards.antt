-- ===== src/Files/Guards.antt =====
-- StoreSource, where the caller may not write the file, and where it goes through.
use juicemud.Base.{
  ℕ, ◌≡◌, ◌≢◌, refl, sym, ap, ◌∙◌, inl, inr, true, false, [], ◌∷◌, ◌++◌, Option, some, Text, Error,
  Result, ok, err, ◌>>=◌, invalid, is_empty, arith, Bool-cases,
}
use juicemud.Dbm.{Bytes, Tkrzw}
use juicemud.Files.{
  File, FileSync, Sql, Caller, IsNew, file_at, row_of, Selected, Fetched, row, no_row, fault,
}
use juicemud.Files.Access.{load_file, check_caller, check_caller-ok, may_access}
use juicemud.Files.Sources.{
  Store, log_sync, is_loggable, store_source_tx, store_source, commit_and_sync,
}

pub >>=-ok :
    {A B : Type 0} (m : Result A) (f : A → Result B) (b : B)
    → (m >>= f) ≡ ok b
    → (a : A) × (m ≡ ok a) × (f a ≡ ok b)
>>=-ok (ok a) f b h = (a, refl, h)
>>=-ok (err e) f b h = absurd (cc)

is_err : {A : Type 0} (r : Result A) → ((a : A) → r ≢ ok a) → (e : Error) × (r ≡ err e)
is_err (ok a) h = absurd (h a refl)
is_err (err e) h = (e, refl)

abbrev pub entry : ℕ → Text → Bytes → ℕ → FileSync
entry id path content now = record {
  id = id;
  remove = [];
  set = path;
  content = content;
  mod_time = now;
}

loggable-named :
    (path : Text) (content : Bytes) (now : ℕ)
    → is_loggable (entry 0 path content now) ≡ true
    → is_empty path ≡ false
unfolding is_loggable is_empty
loggable-named [] content now h = absurd (cc)
loggable-named (c ∷ path) content now h = refl

module _ (q : Sql) where
  row_of-Selected :
      {A : Type 0} (o : Option A) (r : Fetched A) (a : A)
      → Selected o r
      → row_of r ≡ ok a
      → o ≡ some a
  row_of-Selected o (row b) a h e = ground (arith, h)
  row_of-Selected o no_row a h e = absurd (cc)
  row_of-Selected o (fault n) a h e = absurd (cc)

  -- A file that loadFile gives is the one of that path, and the caller may read it.
  pub load_file-ok :
      (db tx : q.Db) (c : Caller) (path : Text) (file : File)
      → load_file q db tx c path ≡ ok file
      → (file_at path (q.files tx) ≡ some file)
        × (may_access (q.members db) c file.read_group ≡ true)
  unfolding load_file
  load_file-ok db tx c path file h =
      let (f, found, h1) = >>=-ok _ _ _ h in
      let (u, allowed, h2) = >>=-ok _ _ _ h1 in
      let same : f ≡ file = ground (arith, h2) in
      (
        row_of-Selected _ (q.select_file tx path) f (q.select_file_rows tx path) found
            ∙ ap some same,
        sym (ap (λ x. may_access (q.members db) c x.read_group) same)
            ∙ check_caller-ok q db c f.read_group allowed,
      )

  log_sync-ok :
      (tx tx' : q.Db) (s : FileSync)
      → log_sync q tx s ≡ ok tx'
      → (is_loggable s ≡ true)
        × ((n : ℕ) × IsNew n (q.syncs tx) × (q.syncs tx' ≡ q.syncs tx ++ record s { id = n } ∷ []))
  unfolding log_sync
  log_sync-ok tx tx' s h = elim (Bool-cases (is_loggable s)) [
    | inl good ↦ (good, q.insert_sync_rows tx tx' s (rw (good, log_sync) at h))
    | inr bad ↦ absurd (let e : err invalid ≡ ok tx' = rw (bad, log_sync) at h in cc)
  ]

  -- What the transaction of StoreSource has done.
  pub record Stored (db tx tx' : q.Db) (c : Caller) (path : Text) (content : Bytes) (now : ℕ)
      : Type 0 where
    pub file : File
    pub there : file_at path (q.files tx) ≡ some file
    pub readable : may_access (q.members db) c file.read_group ≡ true
    pub writable : may_access (q.members db) c file.write_group ≡ true
    pub named : is_empty file.path ≡ false
    pub id : ℕ
    pub new : IsNew id (q.syncs tx)
    pub logged : q.syncs tx' ≡ q.syncs tx ++ entry id file.path content now ∷ []

  -- Where the transaction of StoreSource goes through, there is a file of that path, whose groups let
  -- the caller read and write it, and one entry is added to the log, last, which sets its content.
  pub store_source_tx-Stored :
      (t : Tkrzw) (db tx tx' : q.Db) (c : Caller) (path : Text) (content : Bytes) (now : ℕ)
      → store_source_tx q t c path content now db tx ≡ ok (tx', tt)
      → Stored db tx tx' c path content now
  unfolding store_source_tx
  store_source_tx-Stored t db tx tx' c path content now h =
      let (file, loaded, h1) = >>=-ok _ _ _ h in
      let (u, allowed, h2) = >>=-ok (check_caller q db c file.write_group) _ _ h1 in
      let (tx2, done, h3) = >>=-ok (log_sync q tx (entry 0 file.path content now)) _ _ h2 in
      let same : tx2 ≡ tx' = ground (arith, h3) in
      let (there, readable) = load_file-ok db tx c path file loaded in
      let (good, (id, new, logged)) = log_sync-ok tx tx2 (entry 0 file.path content now) done in
      record {
        file = file;
        there = there;
        readable = readable;
        writable = check_caller-ok q db c file.write_group allowed;
        named = loggable-named file.path content now good;
        id = id;
        new = new;
        logged = sym (ap q.syncs same) ∙ logged;
      }

  -- A caller who may not write a file cannot store its content: the tables and the hashes stay as
  -- they are, and the result is an error.
  pub store_source-refused :
      (t : Tkrzw) (fuel : ℕ) (c : Caller) (path : Text) (content : Bytes) (now : ℕ) (s : Store q t)
      (file : File)
      → file_at path (q.files s.sql) ≡ some file
      → may_access (q.members s.sql) c file.write_group ≡ false
      → (e : Error) × (store_source q t fuel c path content now s ≡ some (s, err e))
  unfolding store_source
  store_source-refused t fuel c path content now s file there denied =
      let (e, failed) = is_err (store_source_tx q t c path content now s.sql s.sql) λ (tx', u) h.
        let d = store_source_tx-Stored t s.sql s.sql tx' c path content now h in
        let same : d.file ≡ file = ground (arith, sym d.there ∙ there) in
        let writable : may_access (q.members s.sql) c file.write_group ≡ true =
          sym (ap (λ x. may_access (q.members s.sql) c x.write_group) same) ∙ d.writable in
        cc in
      (e, ap (λ r. commit_and_sync q t fuel s r) (q.write_drops s.sql _ e failed))
