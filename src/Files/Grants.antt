-- ===== src/Files/Grants.antt =====
-- What the operations on rows ask for before they change one, and what MoveFile cannot move.
use juicemud.Base.{
  ℕ, ◌≡◌, ◌≢◌, refl, sym, ap, ◌∙◌, inl, inr, true, false, [], ◌∷◌, Option, none, some, Text,
  is_empty, Result, ok, err, arith, Bool-cases, is_not_exist, if◌then◌else◌, invalid,
}
use juicemud.Dbm.{Bytes, Tkrzw, hash_get}
use juicemud.Files.{File, Group, Sql, Caller, file_at}
use juicemud.Files.Access.{load_file, check_caller, check_caller-ok, may_access, load_group_by_name}
use juicemud.Files.Sources.{Store, log_sync, is_loggable, load_source}
use juicemud.Files.Ops.{
  chwrite_file_tx, move_file_tx, del_file_if_exists, removal, on_ok, on_result,
}
use juicemud.Files.Paths.{dir, base}
use juicemud.Dbm.Single.{hash_get-missing}
use juicemud.Files.Guards.{>>=-ok, load_file-ok, entry}

module _ (q : Sql) where
  -- What ChwriteFile has done where its transaction goes through.
  pub record Granted (db tx tx' : q.Db) (c : Caller) (path writer : Text) : Type 0 where
    pub file : File
    pub group : Group
    pub there : file_at path (q.files tx) ≡ some file
    pub writable : may_access (q.members db) c file.write_group ≡ true
    pub named : load_group_by_name q tx writer ≡ ok group
    pub member : may_access (q.members db) c group.id ≡ true
    pub written : q.upsert_file tx (record file { write_group = group.id }) ≡ ok tx'

  -- Where the transaction of ChwriteFile goes through, the caller may access both the group that
  -- could write the file and the named one, and all that is written is the row of the file of that
  -- path, with the named group.
  pub chwrite_file_tx-Granted :
      (db tx tx' : q.Db) (c : Caller) (path writer : Text)
      → chwrite_file_tx q db c path writer tx ≡ ok (tx', tt)
      → Granted db tx tx' c path writer
  unfolding chwrite_file_tx
  chwrite_file_tx-Granted db tx tx' c path writer h =
      let (file, loaded, h1) = >>=-ok _ _ _ h in
      let (u, allowed, h2) = >>=-ok (check_caller q db c file.write_group) _ _ h1 in
      let (group, named, h3) = >>=-ok (load_group_by_name q tx writer) _ _ h2 in
      let (w, member, h4) = >>=-ok (check_caller q db c group.id) _ _ h3 in
      let (tx2, written, h5) =
        >>=-ok (q.upsert_file tx (record file { write_group = group.id })) _ _ h4 in
      let same : tx2 ≡ tx' = ground (arith, h5) in
      record {
        file = file;
        group = group;
        there = (load_file-ok q db tx c path file loaded).0;
        writable = check_caller-ok q db c file.write_group allowed;
        named = named;
        member = check_caller-ok q db c group.id member;
        written = written ∙ ap ok same;
      }

on_result-ok :
    {A B : Type 0} (m : Result A) (f : A → Option (Result B)) (b : B)
    → on_result m f ≡ some (ok b)
    → (a : A) × (m ≡ ok a) × (f a ≡ some (ok b))
on_result-ok (ok a) f b h = (a, refl, h)
on_result-ok (err e) f b h = absurd (cc)

on_ok-ok :
    {A B : Type 0} (m : Option (Result A)) (f : A → Option (Result B)) (b : B)
    → on_ok m f ≡ some (ok b)
    → (a : A) × (m ≡ some (ok a)) × (f a ≡ some (ok b))
on_ok-ok none f b h = absurd (cc)
on_ok-ok (some (ok a)) f b h = (a, refl, h)
on_ok-ok (some (err e)) f b h = absurd (cc)

abbrev or_else : {A : Type 0} → A → Option A → A
or_else a none = a
or_else a (some b) = b

abbrev time_of : Result (Bytes × ℕ) → ℕ
time_of (ok (b, n)) = n
time_of (err y) = 0

module _ (q : Sql) (t : Tkrzw) where
  -- Of a path without content, LoadSource gives no content and the time 0, or an error.
  load_source-missing :
      (s : Store q t) (path : Text) (content : Bytes) (time : ℕ)
      → t.view s.sources path ≡ none
      → load_source q t s path ≡ ok (content, time)
      → time ≡ 0
  unfolding load_source
  load_source-missing s path content time missing h = go (hash_get t s.sources path) refl
    where
      go : (r : Result Bytes) → hash_get t s.sources path ≡ r → time ≡ 0
      go (ok b) e = absurd (hash_get-missing t s.sources path b missing e)
      go (err x) e =
          let given : ◌≡◌ {A = Result (Bytes × ℕ)} (if is_not_exist x then ok ([], 0) else err x)
              (ok (content, time)) =
            rw (e, load_source) at h in
          elim (Bool-cases (is_not_exist x)) [
            | inl is ↦ sym (ap time_of (rw is at given))
            | inr is ↦ absurd (
                let bad : ◌≡◌ {A = Result (Bytes × ℕ)} (err x) (ok (content, time)) =
                  rw is at given in
                cc)
          ]

  log_sync-timeless :
      (tx tx' : q.Db) (path : Text) (content : Bytes)
      → log_sync q tx (entry 0 path content 0) ≢ ok tx'
  unfolding log_sync is_loggable is_empty
  log_sync-timeless tx tx' [] content h = cc
  log_sync-timeless tx tx' (c ∷ path) content h = cc

  -- A file at whose path the store of contents has no record cannot be moved: the transaction of MoveFile
  -- never goes through, be the fuel what it will.
  pub move_file_tx-fails :
      (fuel : ℕ) (s : Store q t) (c : Caller) (old_path new_path : Text) (tx tx' : q.Db)
      → t.view s.sources old_path ≡ none
      → move_file_tx q t fuel s c old_path new_path tx ≢ some (ok (tx', tt))
  unfolding move_file_tx
  move_file_tx-fails fuel s c old_path new_path tx tx' missing h =
      let (file, _, h1) = on_result-ok (load_file q s.sql tx c old_path) _ _ h in
      let (_, _, h2) = on_result-ok (check_caller q s.sql c file.write_group) _ _ h1 in
      let ((content, time), loaded, h3) = on_result-ok (load_source q t s old_path) _ _ h2 in
      let (parent, _, h4) = on_result-ok (load_file q s.sql tx c (dir new_path)) _ _ h3 in
      let (_, _, h5) = on_result-ok (check_caller q s.sql c parent.write_group) _ _ h4 in
      let (cleared, _, h6) =
        on_ok-ok (del_file_if_exists q fuel s.sql c new_path false tx) _ _ h5 in
      let row : File = record file { parent = parent.id; path = new_path; name = base new_path } in
      let (moved, _, h7) = >>=-ok (q.upsert_file cleared row) _ _ (ap (or_else (err invalid)) h6) in
      let (removed, _, h8) = >>=-ok (log_sync q moved (removal old_path)) _ _ h7 in
      let (logged, done, _) = >>=-ok (log_sync q removed (entry 0 new_path content time)) _ _ h8 in
      let timeless : time ≡ 0 = load_source-missing s old_path content time missing loaded in
      log_sync-timeless removed logged new_path content
        (sym (ap (λ n. log_sync q removed (entry 0 new_path content n)) timeless) ∙ done)
