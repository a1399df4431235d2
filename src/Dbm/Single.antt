-- ===== src/Dbm/Single.antt =====
-- Set and Del of one record: what they did, by what they return.
use juicemud.Base.{
  ℕ, ◌≡◌, ◌≢◌, refl, Text, Option, none, some, driver, not_exist, Result, ok, err, true,
}
use juicemud.Dbm.{
  Bytes, Status, success, not_found, failure, View, update, Tkrzw, finish, hash_set, hash_del,
  hash_get,
}

module _ (t : Tkrzw) where
  open t use {Db, view}

  -- Done, or an error of tkrzw (which is never os.ErrNotExist).
  abbrev pub Changed : View → Text → Option Bytes → View → Result (Unit {0}) → Type 0
  Changed v k o v' (ok u) = (j : Text) → v' j ≡ update v k o j
  Changed v k o v' (err e) = (n : ℕ) × (e ≡ driver n)

  pub hash_set-Changed :
      (db : Db) (k : Text) (b : Bytes)
      → let (db', r) = hash_set t db k b true in Changed (view db) k (some b) (view db') r
  unfolding hash_set
  hash_set-Changed db k b = go (t.set_record db k b true).1 refl
    where
      go :
          (st : Status)
          → (t.set_record db k b true).1 ≡ st
          → Changed
              (view db)
              k
              (some b)
              (view (t.set_record db k b true).0)
              (finish (t.set_record db k b true).1 none)
      go success e = rw e (t.set_record_success db k b e)
      go not_found e = rw e (1, refl)
      go (failure n) e = rw e (n, refl)

  pub hash_del-Changed :
      (db : Db) (k : Text) → let (db', r) = hash_del t db k in Changed (view db) k none (view db') r
  unfolding hash_del
  hash_del-Changed db k = go (t.remove db k).1 refl
    where
      go :
          (st : Status)
          → (t.remove db k).1 ≡ st
          → Changed (view db) k none (view (t.remove db k).0) (finish (t.remove db k).1 none)
      go success e = rw e (t.remove_success db k e)
      go not_found e = rw e (1, refl)
      go (failure n) e = rw e (n, refl)

  -- Del of a key without a record is an error, and not os.ErrNotExist.
  pub hash_del-missing :
      (db : Db) (k : Text) → view db k ≡ none → (n : ℕ) × ((hash_del t db k).1 ≡ err (driver n))
  unfolding hash_del
  hash_del-missing db k h = go (t.remove db k).1 refl
    where
      go :
          (st : Status)
          → (t.remove db k).1 ≡ st
          → (n : ℕ) × (finish (t.remove db k).1 none ≡ err (driver n))
      go success e = absurd (t.remove_missing db k h e)
      go not_found e = (1, rw e)
      go (failure n) e = (n, rw e)

  -- Get of a key without a record gives no bytes.
  pub hash_get-missing :
      (db : Db) (k : Text) (b : Bytes) → view db k ≡ none → hash_get t db k ≢ ok b
  unfolding hash_get
  hash_get-missing db k b h = go (t.get db k).1 refl
    where
      go : (st : Status) → (t.get db k).1 ≡ st → hash_get t db k ≢ ok b
      go success e found = let there = t.get_success db k e in cc
      go not_found e found = let x : err not_exist ≡ ok b = rw (e, hash_get) at found in cc
      go (failure n) e found = let x : err (driver n) ≡ ok b = rw (e, hash_get) at found in cc
