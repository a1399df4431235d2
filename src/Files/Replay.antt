-- ===== src/Files/Replay.antt =====
-- sync carries the log over to the contents, entry by entry, and can get stuck at one.
use juicemud.Base.{
  ℕ, zero, suc, ◌<◌, ◌≡◌, ◌≢◌, refl, sym, ap, ◌∙◌, false, List, [], ◌∷◌, none, some, is_empty,
  length, arith, Error, driver, Result, ok, err,
}
use juicemud.Dbm.{View, Tkrzw, hash_del}
use juicemud.Dbm.Single.{hash_del-missing}
use juicemud.Files.{
  FileSync, Sql, Fetched, row, no_row, fault, first_sync, without_sync, HasIds, Selected,
}
use juicemud.Files.Sources.{Store, run_sync, sync}
use juicemud.Files.Entry.{apply_sync, replay, Shows, run_sync-Shows, without_sync-first}

module _ (q : Sql) (t : Tkrzw) where
  sync-done :
      (fuel : ℕ) (s : Store q t)
      → q.select_oldest_sync s.sql ≡ no_row
      → sync q t (suc fuel) s ≡ some (s, ok tt)
  unfolding sync
  sync-done fuel s h = rw (h, sync)

  sync-fails :
      (fuel : ℕ) (s : Store q t) (f : FileSync) (e : Error)
      → q.select_oldest_sync s.sql ≡ row f
      → (run_sync q t s f).1 ≡ err e
      → sync q t (suc fuel) s ≡ some ((run_sync q t s f).0, err e)
  unfolding sync
  sync-fails fuel s f e h run = rw (h, run, sync)

  sync-goes :
      (fuel : ℕ) (s : Store q t) (f : FileSync) (d : q.Db)
      → q.select_oldest_sync s.sql ≡ row f
      → (run_sync q t s f).1 ≡ ok tt
      → q.delete_sync (run_sync q t s f).0.sql f.id ≡ ok d
      → sync q t (suc fuel) s ≡ sync q t fuel (record (run_sync q t s f).0 { sql = d })
  unfolding sync
  sync-goes fuel s f d h run del = rw (h, run, del, sync)

  first_sync-none : (log : List FileSync) → first_sync log ≡ none → log ≡ []
  first_sync-none [] h = refl
  first_sync-none (f ∷ log) h = absurd (ground arith)

  first_sync-some :
      (log : List FileSync) (f : FileSync)
      → first_sync log ≡ some f
      → (rest : List FileSync) × (log ≡ f ∷ rest)
  first_sync-some [] f h = absurd (ground arith)
  first_sync-some (g ∷ log) f h = (log, ground arith)

  -- What `sync` promises of a log: it comes to an end, and if it reports no error then the log is
  -- empty and the hashes show all that it asked for, in its order.
  abbrev pub Replays : ℕ → Store q t → View × View → Type 0
  Replays fuel s v =
      (s' : Store q t) × (r : Result (Unit {0})) × (sync q t fuel s ≡ some (s', r))
      × (r ≡ ok tt → (q.syncs s'.sql ≡ []) × Shows q t s' (replay (q.syncs s.sql) v))

  replay-step :
      (fuel : ℕ) (s : Store q t) (f : FileSync) (rest : List FileSync) (d : q.Db) (v : View × View)
      → q.select_oldest_sync s.sql ≡ row f
      → q.syncs s.sql ≡ f ∷ rest
      → (run_sync q t s f).1 ≡ ok tt
      → q.delete_sync (run_sync q t s f).0.sql f.id ≡ ok d
      → q.syncs d ≡ rest
      → Replays fuel (record (run_sync q t s f).0 { sql = d }) (apply_sync f v)
      → Replays (suc fuel) s v
  unfolding replay
  replay-step fuel s f rest d v sel log run del left (s2, r, e, p) = (
    s2,
    r,
    sync-goes fuel s f d sel run del ∙ e,
    λ done. ((p done).0, rw (log, sym left) ((p done).1)),
  )

  -- The statements that `sync` needs do not fail.
  abbrev pub Works : Type 0
  Works =
      ((db : q.Db) (n : ℕ) → q.select_oldest_sync db ≢ fault n)
      × ((db : q.Db) (id : ℕ) → (db' : q.Db) × (q.delete_sync db id ≡ ok db'))

  replay-row :
      (fuel : ℕ) (s : Store q t) (v : View × View) (f : FileSync)
      → Works
      → ((s' : Store q t) (v' : View × View)
          → HasIds (q.syncs s'.sql)
          → Shows q t s' v'
          → length (q.syncs s'.sql) < fuel
          → Replays fuel s' v')
      → HasIds (q.syncs s.sql)
      → Shows q t s v
      → length (q.syncs s.sql) < suc fuel
      → q.select_oldest_sync s.sql ≡ row f
      → first_sync (q.syncs s.sql) ≡ some f
      → Replays (suc fuel) s v
  unfolding replay
  replay-row fuel s v f works ih ids shows enough sel top = go (run_sync q t s f).1 refl
    where
      go : (r : Result (Unit {0})) → (run_sync q t s f).1 ≡ r → Replays (suc fuel) s v
      go (err e) run =
          ((run_sync q t s f).0, err e, sync-fails fuel s f e sel run, λ done. absurd (cc))
      go (ok u) run =
          let s1 = (run_sync q t s f).0 in
          let (rest, log) = first_sync-some (q.syncs s.sql) f top in
          let (there, same) =
            run_sync-Shows q t s s1 f v shows (ap (λ r. ((run_sync q t s f).0, r)) run) in
          let (d, del) = works.1 s1.sql f.id in
          let ids' : HasIds (f ∷ rest) = rw log at ids in
          let left : q.syncs d ≡ rest =
            q.delete_sync_rows s1.sql d f.id del
            ∙ ap (λ b. without_sync f.id (q.syncs b)) same
            ∙ ap (without_sync f.id) log
            ∙ without_sync-first f rest ids'.0 in
          let short : length rest < fuel = ground (arith, rw log at enough) in
          replay-step fuel s f rest d v sel log run del left
            (ih (record s1 { sql = d }) (apply_sync f v) (rw left ids'.1) there (rw left short))

  -- If the statements of `sync` do not fail, no two entries of the log have one id, and the fuel is
  -- more than the entries of the log, then `sync` comes to an end; and if it returns no error, the
  -- log is empty and, at every path, the contents and the times are those that the entries of the
  -- log give, carried out in the order of their ids on what was there before.
  pub sync-Replays :
      (fuel : ℕ) (s : Store q t) (v : View × View)
      → Works
      → HasIds (q.syncs s.sql)
      → Shows q t s v
      → length (q.syncs s.sql) < fuel
      → Replays fuel s v
  unfolding replay
  sync-Replays zero s v works ids shows enough = absurd (ground arith)
  sync-Replays (suc fuel) s v works ids shows enough =
      go (λ s' v' a b c. sync-Replays fuel s' v' works a b c) (q.select_oldest_sync s.sql) refl
        (q.select_oldest_sync_rows s.sql)
    where
      go :
          ((s' : Store q t) (v' : View × View)
            → HasIds (q.syncs s'.sql)
            → Shows q t s' v'
            → length (q.syncs s'.sql) < fuel
            → Replays fuel s' v')
          → (x : Fetched FileSync) → q.select_oldest_sync s.sql ≡ x
          → Selected (first_sync (q.syncs s.sql)) x
          → Replays (suc fuel) s v
      go ih (row f) sel top = replay-row fuel s v f works ih ids shows enough sel top
      go ih no_row sel top =
          let empty = first_sync-none (q.syncs s.sql) top in
          (s, ok tt, sync-done fuel s sel, λ done. (empty, rw empty shows))
      go ih (fault n) sel top = absurd (works.0 s.sql n sel)

  -- Where the oldest entry of the log removes a path that has no content (as that of a directory
  -- has none), every sync ends at this entry with an error of the driver, be the fuel what it will,
  -- and leaves the tables, the log among them, and the times of the files as they were.
  pub sync-stuck :
      (fuel : ℕ) (s : Store q t) (f : FileSync)
      → q.select_oldest_sync s.sql ≡ row f
      → is_empty f.remove ≡ false
      → t.view s.sources f.remove ≡ none
      → (n : ℕ) × (s' : Store q t) × (sync q t (suc fuel) s ≡ some (s', err (driver n)))
        × (s'.sql ≡ s.sql)
        × (s'.mod_times ≡ s.mod_times)
  unfolding run_sync
  sync-stuck fuel s f sel named missing =
      let (n, e) = hash_del-missing t s.sources f.remove missing in
      let run : run_sync q t s f
          ≡ (record s { sources = (hash_del t s.sources f.remove).0 }, err (driver n)) =
        rw (named, e, run_sync) in
      (
        n,
        (run_sync q t s f).0,
        sync-fails fuel s f (driver n) sel (ap (λ p. p.1) run),
        ap (λ p. p.0.sql) run,
        ap (λ p. p.0.mod_times) run,
      )
