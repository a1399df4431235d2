-- ===== src/Files.antt =====
-- storage/storage.go: files, groups and users in SQL tables, and file contents in two hashes.
-- sqly and SQLite are not part of the repository: they are the parameter Sql, one field for each
-- statement of the source, with what a statement that succeeds has done. Ids are not negative.
pub mod Access
pub mod Sources
pub mod Paths
pub mod Ops
pub mod Entry
pub mod Replay
pub mod Guards
pub mod RoundTrip
pub mod Grants
pub mod Memory
mod Tests
use juicemud.Base.{
  ℕ, ◌≡◌, ◌≢◌, ◌⊎◌, Bool, true, false, ◌&&◌, ◌||◌, List, [], ◌∷◌, ◌++◌, Option, none, some, Text,
  ◌=~◌, ◌==◌, if◌then◌else◌, Result, ok, err, driver, Error,
}
use juicemud.Dbm.{Bytes}

pub record File : Type 0 where
  pub id : ℕ
  pub parent : ℕ
  pub name : Text
  pub path : Text
  pub dir : Bool
  pub read_group : ℕ
  pub write_group : ℕ

pub record FileSync : Type 0 where
  pub id : ℕ
  pub remove : Text
  pub set : Text
  pub content : Bytes
  pub mod_time : ℕ

pub record Group : Type 0 where
  pub id : ℕ
  pub name : Text
  pub owner_group : ℕ

pub record User : Type 0 where
  pub id : ℕ
  pub name : Text
  pub password_hash : Text
  pub owner : Bool
  pub object : Text

pub record GroupMember : Type 0 where
  pub id : ℕ
  pub user : ℕ
  pub group : ℕ

-- The zero value of File.
abbrev pub no_file : File
no_file = record {
  id = 0;
  parent = 0;
  name = [];
  path = [];
  dir = false;
  read_group = 0;
  write_group = 0;
}

-- WHERE Path = ?
abbrev pub file_at : Text → List File → Option File
file_at path [] = none
file_at path (f ∷ fs) = if f.path =~ path then some f else file_at path fs

-- WHERE User = ? AND `Group` = ?
abbrev pub is_member : List GroupMember → ℕ → ℕ → Bool
is_member [] user group = false
is_member (m ∷ ms) user group = (m.user == user && m.group == group) || is_member ms user group

-- DELETE FROM FileSync WHERE Id = ?
abbrev pub without_sync : ℕ → List FileSync → List FileSync
without_sync id [] = []
without_sync id (s ∷ ss) = let rest = without_sync id ss in if s.id == id then rest else s ∷ rest

-- DELETE FROM File WHERE Id = ?
abbrev pub without_file : ℕ → List File → List File
without_file id [] = []
without_file id (f ∷ fs) = let rest = without_file id fs in if f.id == id then rest else f ∷ rest

-- ORDER BY Id ASC LIMIT 1 of a table whose rows are kept in the order of their ids
abbrev pub first_sync : List FileSync → Option FileSync
first_sync [] = none
first_sync (s ∷ ss) = some s

-- No entry of the log has this id; no two entries have one.
abbrev pub IsNew : ℕ → List FileSync → Type 0
IsNew id [] = Unit
IsNew id (f ∷ log) = (f.id ≢ id) × IsNew id log

abbrev pub HasIds : List FileSync → Type 0
HasIds [] = Unit
HasIds (f ∷ log) = IsNew f.id log × HasIds log

-- What a SELECT of one row gives: a row, sql.ErrNoRows, or an error of the driver.
pub data Fetched (A : Type 0) : Type 0 where
  row : A → Fetched A
  no_row : Fetched A
  fault : ℕ → Fetched A

-- The result is the row that is asked for, or that there is none, unless the driver fails.
abbrev pub Selected : {A : Type 0} → Option A → Fetched A → Type 0
Selected o (row a) = o ≡ some a
Selected o no_row = o ≡ none
Selected o (fault n) = Unit

-- There is a row exactly if `b`, unless the driver fails.
abbrev pub Answered : {A : Type 0} → Bool → Fetched A → Type 0
Answered b (row a) = b ≡ true
Answered b no_row = b ≡ false
Answered b (fault n) = Unit

pub record Sql : Type 1 where
  pub Db : Type 0
  -- The rows of the tables; those of FileSync in the order of their ids.
  pub files : Db → List File
  pub syncs : Db → List FileSync
  pub members : Db → List GroupMember
  -- The statements.
  pub select_file : Db → Text → Fetched File
  pub select_children : Db → ℕ → Result (List File)
  pub select_oldest_sync : Db → Fetched FileSync
  pub select_group_by_name : Db → Text → Fetched Group
  pub select_group_by_id : Db → ℕ → Fetched Group
  pub select_user : Db → Text → Fetched User
  pub select_members : Db → ℕ → Result (List GroupMember)
  pub select_member : Db → ℕ → ℕ → Fetched GroupMember
  pub upsert_file : Db → File → Result Db
  pub upsert_group : Db → Group → Result Db
  pub upsert_user : Db → User → Bool → Result Db
  pub insert_sync : Db → FileSync → Result Db
  pub delete_file : Db → ℕ → Result Db
  pub delete_sync : Db → ℕ → Result Db
  -- A transaction: what the function did is kept if it returns no error, and dropped if it does.
  pub write : {A : Type 0} → Db → (Db → Result (Db × A)) → Db × Result A
  pub select_file_rows :
      (db : Db) (path : Text) → Selected (file_at path (files db)) (select_file db path)
  pub select_member_rows :
      (db : Db) (user group : ℕ)
      → Answered (is_member (members db) user group) (select_member db user group)
  pub select_oldest_sync_rows : (db : Db) → Selected (first_sync (syncs db)) (select_oldest_sync db)
  pub delete_sync_rows :
      (db db' : Db) (id : ℕ) → delete_sync db id ≡ ok db' → syncs db' ≡ without_sync id (syncs db)
  pub insert_sync_rows :
      (db db' : Db) (s : FileSync)
      → insert_sync db s ≡ ok db'
      → (n : ℕ) × IsNew n (syncs db) × (syncs db' ≡ syncs db ++ record s { id = n } ∷ [])
  pub write_keeps :
      {A : Type 0} (db : Db) (f : Db → Result (Db × A)) (db' : Db) (a : A)
      → f db ≡ ok (db', a)
      → (write db f ≡ (db', ok a)) ⊎ ((n : ℕ) × (write db f ≡ (db, err (driver n))))
  pub write_drops :
      {A : Type 0} (db : Db) (f : Db → Result (Db × A)) (e : Error)
      → f db ≡ err e
      → write db f ≡ (db, err e)

-- Who calls: the main context, and the authenticated user, as the context tells.
pub record Caller : Type 0 where
  pub is_main : Bool
  pub user : Option User

-- getSQL: no row is os.ErrNotExist.
abbrev pub row_of : {A : Type 0} → Fetched A → Result A
row_of (row a) = ok a
row_of no_row = err Error.not_exist
row_of (fault n) = err (driver n)
