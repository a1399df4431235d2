-- ===== src/Files/RoundTrip.antt =====
-- What StoreSource has stored is there: the transaction, the log and sync together.
use juicemud.Base.{
  ℕ, ◌+◌, ◌<◌, ◌≡◌, ◌≢◌, refl, sym, ap, ◌∙◌, inl, inr, false, List, [], ◌∷◌, ◌++◌, some, Text,
  =~_iff, =~_self, is_empty, Error, driver, Result, ok, err, arith, length, length-append,
}
use juicemud.Dbm.{Bytes, View, Tkrzw}
use juicemud.Structs.Keys.{put_uint64}
use juicemud.Files.{File, FileSync, Sql, Caller, IsNew, HasIds, file_at}
use juicemud.Files.Sources.{Store, store_source, store_source_tx, commit_and_sync}
use juicemud.Files.Entry.{apply_sync, replay}
use juicemud.Files.Replay.{Works, sync-Replays}
use juicemud.Files.Guards.{entry, Stored, store_source_tx-Stored}

IsNew-snoc :
    (id : ℕ) (log : List FileSync) (f : FileSync)
    → IsNew id log
    → f.id ≢ id
    → IsNew id (log ++ f ∷ [])
IsNew-snoc id [] f h n = (n, tt)
IsNew-snoc id (g ∷ log) f h n = (h.0, IsNew-snoc id log f h.1 n)

HasIds-snoc :
    (log : List FileSync) (f : FileSync) → HasIds log → IsNew f.id log → HasIds (log ++ f ∷ [])
HasIds-snoc [] f h n = (tt, tt)
HasIds-snoc (g ∷ log) f h n =
    (IsNew-snoc g.id log f h.0 (λ e. n.0 (sym e)), HasIds-snoc log f h.1 n.1)

replay-snoc :
    (log : List FileSync) (f : FileSync) (v : View × View)
    → replay (log ++ f ∷ []) v ≡ apply_sync f (replay log v)
unfolding replay
replay-snoc [] f v = refl
replay-snoc (g ∷ log) f v = replay-snoc log f (apply_sync g v)

-- The entry of StoreSource sets its path.
apply_sync-entry :
    (id : ℕ) (path : Text) (content : Bytes) (now : ℕ) (v : View × View)
    → is_empty path ≡ false
    → let w = apply_sync (entry id path content now) v in
      (w.0 path ≡ some content) × (w.1 path ≡ some (put_uint64 now))
unfolding apply_sync is_empty
apply_sync-entry id path content now v named = rw (named, =~_self path) (refl, refl)

file_at-path :
    (path : Text) (files : List File) (file : File)
    → file_at path files ≡ some file
    → file.path ≡ path
file_at-path path [] file h = absurd (ground arith)
file_at-path path (f ∷ files) file h =
    ground (arith, =~_iff f.path path, file_at-path path files file)

module _ (q : Sql) (t : Tkrzw) where
  -- How StoreSource ends: without an error only if the content and the time are stored.
  abbrev pub Kept : ℕ → Caller → Text → Bytes → ℕ → Store q t → Type 0
  Kept fuel c path content now s =
      (s' : Store q t) × (r : Result (Unit {0})) × (store_source q t fuel c path content now s
        ≡ some (s', r))
      × (r ≡ ok tt
          → (t.view s'.sources path ≡ some content)
            × (t.view s'.mod_times path ≡ some (put_uint64 now)))

  Stored-Kept :
      (fuel : ℕ) (c : Caller) (path : Text) (content : Bytes) (now : ℕ) (s : Store q t) (tx : q.Db)
      → Works q t
      → HasIds (q.syncs s.sql)
      → length (q.syncs s.sql) + 1 < fuel
      → Stored q s.sql s.sql tx c path content now
      → q.write s.sql (store_source_tx q t c path content now s.sql) ≡ (tx, ok tt)
      → Kept fuel c path content now s
  unfolding store_source commit_and_sync
  Stored-Kept fuel c path content now s tx works ids enough d wrote =
      let log = q.syncs s.sql in
      let e = entry d.id d.file.path content now in
      let v : View × View = (t.view s.sources, t.view s.mod_times) in
      let longer : length (q.syncs tx) ≡ length log + 1 =
        ap length d.logged ∙ length-append log (e ∷ []) in
      let size : length (q.syncs tx) < fuel = omega arith in
      let (s', r, ends, shows) =
        sync-Replays q t fuel (record s { sql = tx }) v works
          (rw d.logged (HasIds-snoc log e ids d.new)) ((λ k. refl), (λ k. refl)) size in
      let path_is : d.file.path ≡ path = file_at-path path (q.files s.sql) d.file d.there in
      let last : replay (q.syncs tx) v ≡ apply_sync e (replay log v) =
        ap (λ l. replay l v) d.logged ∙ replay-snoc log e v in
      let (content_is, time_is) =
        apply_sync-entry d.id d.file.path content now (replay log v) d.named in
      (
        s',
        r,
        ap (commit_and_sync q t fuel s) wrote ∙ ends,
        λ done. (
          (shows done).1.0 path
              ∙ ap (λ w. w.0 path) last
              ∙ ap (apply_sync e (replay log v)).0 (sym path_is)
              ∙ content_is,
          (shows done).1.1 path
              ∙ ap (λ w. w.1 path) last
              ∙ ap (apply_sync e (replay log v)).1 (sym path_is)
              ∙ time_is,
        ),
      )

  -- If the statements of sync do not fail, no two entries of the log have one id, and the fuel is
  -- more than the entries of the log and one, then StoreSource comes to an end; and if it returns no
  -- error, the content and the time that it was given are those of the path, whatever was in the log.
  pub store_source-Kept :
      (fuel : ℕ) (c : Caller) (path : Text) (content : Bytes) (now : ℕ) (s : Store q t)
      → Works q t
      → HasIds (q.syncs s.sql)
      → length (q.syncs s.sql) + 1 < fuel
      → Kept fuel c path content now s
  unfolding store_source commit_and_sync
  store_source-Kept fuel c path content now s works ids enough =
      go (store_source_tx q t c path content now s.sql s.sql) refl
    where
      failed :
          (db : q.Db) (e : Error)
          → q.write s.sql (store_source_tx q t c path content now s.sql) ≡ (db, err e)
          → Kept fuel c path content now s
      failed db e wrote =
          (record s { sql = db }, err e, ap (commit_and_sync q t fuel s) wrote, λ done. absurd (cc))

      go :
          (r : Result (q.Db × Unit {0}))
          → store_source_tx q t c path content now s.sql s.sql ≡ r
          → Kept fuel c path content now s
      go (err e) h = failed s.sql e (q.write_drops s.sql _ e h)
      go (ok (tx, u)) h = elim (q.write_keeps s.sql _ tx u h) [
        | inl wrote ↦
            Stored-Kept fuel c path content now s tx works ids enough
              (store_source_tx-Stored q t s.sql s.sql tx c path content now h) wrote
        | inr (n, wrote) ↦ failed s.sql (driver n) wrote
      ]
