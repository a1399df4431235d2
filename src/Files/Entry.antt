-- ===== src/Files/Entry.antt =====
-- What one entry of the log asks for, and that runSync does it: the steps of sync.
use juicemud.Base.{
  ℕ, ◌≡◌, refl, sym, ap, ◌∙◌, inl, inr, List, [], ◌∷◌, Option, none, some, Text, is_empty, not,
  if◌then◌else◌, arith, Result, ok, err, Bool-cases,
}
use juicemud.Dbm.{Bytes, View, update, Tkrzw}
use juicemud.Dbm.Single.{Changed, hash_set-Changed, hash_del-Changed}
use juicemud.Structs.Keys.{put_uint64}
use juicemud.Files.{FileSync, Sql, without_sync, IsNew}
use juicemud.Files.Sources.{Store, run_sync, unless_missing, then_run}

-- What one entry of the log asks for: no content and no time for a path, or these.
unfoldable pub apply_sync : FileSync → View × View → View × View
apply_sync f (contents, times) =
    if not (is_empty f.remove)
    then (update contents f.remove none, update times f.remove none)
    else if not (is_empty f.set)
    then (update contents f.set (some f.content), update times f.set (some (put_uint64 f.mod_time)))
    else (contents, times)

unfoldable pub replay : List FileSync → View × View → View × View
replay [] v = v
replay (f ∷ log) v = replay log (apply_sync f v)

without_sync-IsNew : (id : ℕ) (log : List FileSync) → IsNew id log → without_sync id log ≡ log
without_sync-IsNew id [] h = refl
without_sync-IsNew id (f ∷ log) h = ground (arith, without_sync-IsNew id log h.1)

pub without_sync-first :
    (f : FileSync) (log : List FileSync) → IsNew f.id log → without_sync f.id (f ∷ log) ≡ log
without_sync-first f log h = ground (arith, without_sync-IsNew f.id log h)

module _ (q : Sql) (t : Tkrzw) where
  -- The two hashes hold what `v` tells.
  abbrev pub Shows : Store q t → View × View → Type 0
  Shows s v =
      ((k : Text) → t.view s.sources k ≡ v.0 k) × ((k : Text) → t.view s.mod_times k ≡ v.1 k)

  unless_missing-ok :
      (v : View) (k : Text) (o : Option Bytes) (v' : View) (r : Result (Unit {0}))
      → Changed t v k o v' r
      → unless_missing q t r ≡ ok tt
      → (j : Text) → v' j ≡ update v k o j
  unless_missing-ok v k o v' (ok u) h e = h
  unless_missing-ok v k o v' (err x) (n, d) e = absurd (ground arith)

  set-ok :
      (v : View) (k : Text) (o : Option Bytes) (v' : View) (r : Result (Unit {0}))
      → Changed t v k o v' r
      → r ≡ ok tt
      → (j : Text) → v' j ≡ update v k o j
  set-ok v k o v' (ok u) h e = h
  set-ok v k o v' (err x) h e = absurd (cc)

  update-eq :
      (v w : View) (k : Text) (o : Option Bytes)
      → ((j : Text) → v j ≡ w j)
      → (j : Text) → update v k o j ≡ update w k o j
  update-eq v w k o h j = ground (arith, h j)

  then_run-ok :
      (r : Result (Unit {0})) (s s' : Store q t) (f : Store q t → Store q t × Result (Unit {0}))
      → then_run q t r s f ≡ (s', ok tt)
      → (r ≡ ok tt) × (f s ≡ (s', ok tt))
  then_run-ok (ok u) s s' f h = (refl, h)
  then_run-ok (err e) s s' f h = absurd (ground arith)

  pub run_sync-Shows :
      (s s' : Store q t) (f : FileSync) (v : View × View)
      → Shows s v
      → run_sync q t s f ≡ (s', ok tt)
      → Shows s' (apply_sync f v) × (s'.sql ≡ s.sql)
  unfolding run_sync apply_sync
  run_sync-Shows s s' f v (hc, ht) h = elim (Bool-cases (not (is_empty f.remove))) [
    | inl removes ↦
        let (dropped, rest) = then_run-ok _ _ s' _ (rw removes at h) in
        let c =
          unless_missing-ok _ f.remove none _ _ (hash_del-Changed t s.sources f.remove) dropped in
        let d =
          unless_missing-ok _ f.remove none _ _ (hash_del-Changed t s.mod_times f.remove)
            (ap (λ p. p.1) rest) in
        rw removes (
          (
            (λ j.
                sym (ap (λ p. t.view p.0.sources j) rest) ∙ c j ∙ update-eq _ _ f.remove none hc j),
            (λ j.
                sym (ap (λ p. t.view p.0.mod_times j) rest)
                ∙ d j
                ∙ update-eq _ _ f.remove none ht j),
          ),
          sym (ap (λ p. p.0.sql) rest),
        )
    | inr keeps ↦ elim (Bool-cases (not (is_empty f.set))) [
      | inl sets ↦
          let (timed, rest) = then_run-ok _ _ s' _ (rw (keeps, sets, run_sync) at h) in
          let d =
            set-ok _ f.set _ _ _ (hash_set-Changed t s.mod_times f.set (put_uint64 f.mod_time))
              timed in
          let c =
            set-ok _ f.set _ _ _ (hash_set-Changed t s.sources f.set f.content)
              (ap (λ p. p.1) rest) in
          rw (keeps, sets)
            (
              (
                (λ j.
                    sym (ap (λ p. t.view p.0.sources j) rest)
                    ∙ c j
                    ∙ update-eq _ _ f.set (some f.content) hc j),
                (λ j.
                    sym (ap (λ p. t.view p.0.mod_times j) rest)
                    ∙ d j
                    ∙ update-eq _ _ f.set (some (put_uint64 f.mod_time)) ht j),
              ),
              sym (ap (λ p. p.0.sql) rest),
            )
      | inr idle ↦
          let same : (s, ok tt) ≡ (s', ok tt) = rw (keeps, idle, run_sync) at h in
          rw (keeps, idle)
            (
              (
                (λ j. sym (ap (λ p. t.view p.0.sources j) same) ∙ hc j),
                (λ j. sym (ap (λ p. t.view p.0.mod_times j) same) ∙ ht j),
              ),
              sym (ap (λ p. p.0.sql) same),
            )
    ]
  ]
