-- ===== src/Files/Memory.antt =====
-- An instance of Sql: tables that are lists, no statement of which fails.
use juicemud.Base.{
  ℕ, suc, refl, sym, ap, inl, Bool, true, false, List, [], ◌∷◌, ◌++◌, Option, none, some, Text,
  ◌=~◌, ◌==◌, ltb, ◌≤◌, arith, if◌then◌else◌, Result, ok, err,
}
use juicemud.Files.{
  File, FileSync, Group, User, GroupMember, Sql, Fetched, row, no_row, file_at, is_member,
  first_sync, without_sync, IsNew, without_file, Selected, Answered,
}

pub record Tables : Type 0 where
  pub files : List File
  pub syncs : List FileSync
  pub groups : List Group
  pub users : List User
  pub members : List GroupMember

abbrev fetched : {A : Type 0} → Option A → Fetched A
fetched none = no_row
fetched (some a) = row a

pub fetched-Selected : {A : Type 0} (o : Option A) → Selected o (fetched o)
fetched-Selected none = refl
fetched-Selected (some a) = refl

abbrev children : ℕ → List File → List File
children parent [] = []
children parent (f ∷ fs) =
    let rest = children parent fs in if f.parent == parent then f ∷ rest else rest

abbrev group_named : Text → List Group → Option Group
group_named name [] = none
group_named name (g ∷ gs) = if g.name =~ name then some g else group_named name gs

abbrev group_of_id : ℕ → List Group → Option Group
group_of_id id [] = none
group_of_id id (g ∷ gs) = if g.id == id then some g else group_of_id id gs

abbrev user_named : Text → List User → Option User
user_named name [] = none
user_named name (u ∷ us) = if u.name =~ name then some u else user_named name us

abbrev of_user : ℕ → List GroupMember → List GroupMember
of_user user [] = []
of_user user (m ∷ ms) = let rest = of_user user ms in if m.user == user then m ∷ rest else rest

abbrev member_row : Tables → ℕ → ℕ → Fetched GroupMember
member_row db user group =
    if is_member db.members user group
    then row (record { id = 0; user = user; group = group })
    else no_row

pub member_row-Answered :
    (db : Tables) (user group : ℕ)
    → Answered (is_member db.members user group) (member_row db user group)
member_row-Answered db user group = go (is_member db.members user group)
  where
    go :
        (b : Bool)
        → Answered {A = GroupMember} b
            (if b then row (record { id = 0; user = user; group = group }) else no_row)
    go true = refl
    go false = refl

abbrev replace_file : File → List File → List File
replace_file f fs = f ∷ without_file f.id fs

abbrev kept : {A : Type 0} → Tables → Result (Tables × A) → Tables × Result A
kept db (ok (db', a)) = (db', ok a)
kept db (err e) = (db, err e)

-- The least id from 1 on that is above all ids of the log.
abbrev above : List FileSync → ℕ
above [] = 1
above (f ∷ log) = let rest = above log in if ltb f.id rest then rest else suc f.id

pub above-IsNew : (n : ℕ) (log : List FileSync) → above log ≤ n → IsNew n log
above-IsNew n [] h = tt
above-IsNew n (f ∷ log) h = (ground arith, above-IsNew n log (ground arith))

abbrev of_ok : Tables → Result Tables → Tables
of_ok db (ok db') = db'
of_ok db (err e) = db

abbrev pub tables : Sql
tables = record {
  Db = Tables;
  files = λ db. db.files;
  syncs = λ db. db.syncs;
  members = λ db. db.members;
  select_file = λ db path. fetched (file_at path db.files);
  select_children = λ db parent. ok (children parent db.files);
  select_oldest_sync = λ db. fetched (first_sync db.syncs);
  select_group_by_name = λ db name. fetched (group_named name db.groups);
  select_group_by_id = λ db id. fetched (group_of_id id db.groups);
  select_user = λ db name. fetched (user_named name db.users);
  select_members = λ db user. ok (of_user user db.members);
  select_member = member_row;
  upsert_file = λ db f. ok (record db { files = replace_file f db.files });
  upsert_group = λ db g. ok (record db { groups = g ∷ db.groups });
  upsert_user = λ db u overwrite. ok (record db { users = u ∷ db.users });
  insert_sync =
      λ db s. ok (record db { syncs = db.syncs ++ record s { id = above db.syncs } ∷ [] });
  delete_file = λ db id. ok (record db { files = without_file id db.files });
  delete_sync = λ db id. ok (record db { syncs = without_sync id db.syncs });
  write = λ db f. kept db (f db);
  select_file_rows = λ db path. fetched-Selected (file_at path db.files);
  select_member_rows = member_row-Answered;
  select_oldest_sync_rows = λ db. fetched-Selected (first_sync db.syncs);
  delete_sync_rows = λ db db' id h. sym (ap (λ r. (of_ok db r).syncs) h);
  insert_sync_rows = λ db db' s h. (
    above db.syncs,
    above-IsNew (above db.syncs) db.syncs (omega arith),
    sym (ap (λ r. (of_ok db r).syncs) h),
  );
  write_keeps = λ db f db' a h. inl (ap (kept db) h);
  write_drops = λ db f e h. ap (kept db) h;
}
