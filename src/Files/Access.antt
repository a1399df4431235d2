-- ===== src/Files/Access.antt =====
-- Who may access what a group owns: UserAccessToGroupID, CallerAccessToGroupID,
-- CheckCallerAccessToGroupID, loadFile, loadGroupByName, loadGroupByID and their callers.
use juicemud.Base.{
  ℕ, ◌≡◌, ◌≢◌, refl, sym, inl, inr, Bool, true, false, List, [], Option, none, some, Text, ◌==◌,
  is_empty, if◌then◌else◌, Result, ok, err, permission, ◌>>=◌, ◌>>◌, is_not_exist, Bool-cases,
}
use juicemud.Files.{
  File, Group, User, GroupMember, Sql, Caller, row_of, is_member, Fetched, row, no_row, fault,
  Answered,
}

module _ (q : Sql) where
  open q use {Db}

  -- A row, or false for os.ErrNotExist.
  abbrev found_row : {A : Type 0} → Result A → Result Bool
  found_row (ok a) = ok true
  found_row (err e) = if is_not_exist e then ok false else err e

  -- UserAccessToGroupID
  pub user_access_to_group_id : Db → User → ℕ → Result Bool
  user_access_to_group_id db user group =
      if user.owner then ok true else found_row (row_of (q.select_member db user.id group))

  -- CallerAccessToGroupID
  pub caller_access_to_group_id : Db → Caller → ℕ → Result Bool
  unfolding user_access_to_group_id
  caller_access_to_group_id db c group =
      if c.is_main
      then ok true
      else elim (c.user) [ none ↦ ok false | some u ↦ user_access_to_group_id db u group ]

  -- CheckCallerAccessToGroupID
  unfoldable pub check_caller : Db → Caller → ℕ → Result (Unit {0})
  unfolding caller_access_to_group_id
  check_caller db c group =
      caller_access_to_group_id db c group >>= λ access. if access then ok tt else err permission

  -- loadFile, in the transaction `tx`; the check reads `s.sql`, outside of it.
  unfoldable pub load_file : Db → Db → Caller → Text → Result File
  unfolding check_caller
  load_file db tx c path = do
    file ← row_of (q.select_file tx path)
    check_caller db c file.read_group
    ok file

  -- loadGroupByName: the empty name is the group 0.
  unfoldable pub load_group_by_name : Db → Text → Result Group
  load_group_by_name tx name =
      if is_empty name
      then ok (record { id = 0; name = []; owner_group = 0 })
      else row_of (q.select_group_by_name tx name)

  -- loadGroupByID
  unfoldable pub load_group_by_id : Db → ℕ → Result Group
  load_group_by_id tx id =
      if id == 0
      then ok (record { id = 0; name = []; owner_group = 0 })
      else row_of (q.select_group_by_id tx id)

  -- UserAccessToGroup
  unfoldable pub user_access_to_group : Db → User → Text → Result Bool
  unfolding load_group_by_name user_access_to_group_id
  user_access_to_group db user name =
      if user.owner
      then ok true
      else load_group_by_name db name >>= λ g. user_access_to_group_id db user g.id

  -- FileGroups
  unfoldable pub file_groups : Db → File → Result (Group × Group)
  unfolding load_group_by_id
  file_groups db file = do
    reader ← load_group_by_id db file.read_group
    writer ← load_group_by_id db file.write_group
    ok (reader, writer)

  -- LoadUser
  unfoldable pub load_user : Db → Text → Result User
  load_user db name = row_of (q.select_user db name)

  -- GetHA1AndUser: the hash, and the user, if there is one.
  unfoldable pub get_ha1_and_user : Db → Text → Result (Text × Option User)
  get_ha1_and_user db name = elim (row_of (q.select_user db name)) [
    | ok u ↦ ok (u.password_hash, some u)
    | err e ↦ if is_not_exist e then ok ([], none) else err e
  ]

-- Who may access a group, by the rows of GroupMember alone.
abbrev pub may_access : List GroupMember → Caller → ℕ → Bool
may_access ms c group =
    if c.is_main
    then true
    else elim (c.user) [ none ↦ false | some u ↦ if u.owner then true else is_member ms u.id group ]

module _ (q : Sql) where
  open q use {Db}

  -- How the answer to a question ends: right, or an error that is not os.ErrNotExist.
  abbrev pub Answers : Bool → Result Bool → Type 0
  Answers b (ok b') = b' ≡ b
  Answers b (err e) = is_not_exist e ≡ false

  found_row-Answers :
      (b : Bool) (r : Fetched GroupMember) → Answered b r → Answers b (found_row q (row_of r))
  found_row-Answers b (row m) h = sym h
  found_row-Answers b no_row h = sym h
  found_row-Answers b (fault n) h = refl

  -- CallerAccessToGroupID says exactly who may access the group: the main context, an owner, and a
  -- user who is a member of it; or it ends with an error that is not os.ErrNotExist.
  pub caller_access-Answers :
      (db : Db) (c : Caller) (group : ℕ)
      → Answers (may_access (q.members db) c group) (caller_access_to_group_id q db c group)
  unfolding caller_access_to_group_id
  caller_access-Answers db c group = elim (Bool-cases c.is_main) [
    | inl t ↦ rw t refl
    | inr t ↦ rw t (of_user c.user)
  ]
    where
      of_user :
          (u : Option User)
          → Answers
              (elim u [
                | none ↦ false
                | some v ↦ if v.owner then true else is_member (q.members db) v.id group
              ])
              (elim u [ none ↦ ok false | some v ↦ user_access_to_group_id q db v group ])
      of_user none = refl
      of_user (some v) = elim (Bool-cases v.owner) [
        | inl o ↦ rw (o, user_access_to_group_id) refl
        | inr o ↦
            rw (o, user_access_to_group_id)
              (found_row-Answers _ (q.select_member db v.id group)
                (q.select_member_rows db v.id group))
      ]

  -- A user who is no owner and no member of a group that there is has no access to it, unless the
  -- driver fails.
  pub user_access-refused :
      (db : Db) (user : User) (name : Text) (g : Group)
      → is_empty name ≡ false
      → user.owner ≡ false
      → q.select_group_by_name db name ≡ row g
      → is_member (q.members db) user.id g.id ≡ false
      → ((n : ℕ) → q.select_member db user.id g.id ≢ fault n)
      → user_access_to_group q db user name ≡ ok false
  unfolding user_access_to_group load_group_by_name
  user_access-refused db user name g named no_owner there no_member works =
      rw (no_owner, named, there, user_access_to_group_id)
        (go (q.select_member db user.id g.id) (q.select_member_rows db user.id g.id) works)
    where
      go :
          (r : Fetched GroupMember)
          → Answered (is_member (q.members db) user.id g.id) r
          → ((n : ℕ) → r ≢ fault n)
          → found_row q (row_of r) ≡ ok false
      go (row m) h w = absurd (cc)
      go no_row h w = refl
      go (fault n) h w = absurd (w n refl)

  -- A check that passes was one of a caller who may access the group.
  pub check_caller-ok :
      (db : Db) (c : Caller) (group : ℕ)
      → check_caller q db c group ≡ ok tt
      → may_access (q.members db) c group ≡ true
  unfolding check_caller
  check_caller-ok db c group h =
      go (caller_access_to_group_id q db c group) (caller_access-Answers db c group) h
    where
      go :
          (r : Result Bool)
          → Answers (may_access (q.members db) c group) r
          → ◌≡◌ {A = Result (Unit {0})}
              (r >>= λ access. if access then ok tt else err permission)
              (ok tt)
          → may_access (q.members db) c group ≡ true
      go (ok true) a h = sym a
      go (ok false) a h = absurd (cc)
      go (err e) a h = absurd (cc)
