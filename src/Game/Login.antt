-- ===== src/Game/Login.antt =====
-- game/connection.go: loginUser, createUser and Connect up to Process. A hash is compared as a text:
-- how long the comparison takes is not modelled; `%q` of a name is the name in quotes.
use juicemud.Base.{
  ℕ, false, [], ◌∷◌, ◌++◌, Option, none, some, Text, ◌=~◌, codes, Result, ok, err, aborted,
  is_not_exist, if◌then◌else◌,
}
use juicemud.Base.Act.{Act, ◌>>=◌, ◌>>◌, pure, raise, lift}
use juicemud.Files.{User}
use juicemud.Files.Access.{load_user}
use juicemud.Objects.{Movement}
use juicemud.Digest.{compute_ha1}
use juicemud.Game.{Parts, World}
use juicemud.Game.Emit.{connected_event_type, emit_event_tag}
use juicemud.Game.Storage.{Refresh}
use juicemud.Game.Run.{load_run_save}
use juicemud.Game.Start.{create_user}
use juicemud.Game.Terminal.{
  Connection, in_world, print, read_line, until, select_exec, select_return, connected_user,
  describe_long,
}

-- juicemud.DAVAuthRealm
abbrev pub dav_auth_realm : Text
dav_auth_realm = codes "WebDAV"

module _ (p : Parts) where
  abbrev pub hash_of : User → Text → Text
  hash_of user password = compute_ha1 p.md5 user.name dav_auth_realm password

  -- LoadUser
  abbrev pub loaded : Text → Connection p → Result User
  loaded name c = load_user p.sql ((c.world).files.sql) name

  abbrev pub known_user : Result User → Act (Connection p) (Option User)
  known_user (ok user) = pure (some user)
  known_user (err e) =
      if is_not_exist e then print p (codes "Username not found!") >> pure none else raise e

  -- The first loop of loginUser: the user that is named.
  unfoldable pub ask_username : Act (Connection p) (Option User)
  unfolding read_line print
  ask_username = do
    print p (codes "Enter username or [abort]:")
    username ← read_line p
    user ← λ c. some (c, ok (loaded username c))
    if username =~ codes "abort" then raise aborted else known_user user

  -- The second loop of loginUser.
  unfoldable pub ask_password : User → Act (Connection p) (Option User)
  unfolding read_line print compute_ha1
  ask_password user = do
    print p (codes "Enter password or [abort]:")
    password ← read_line p
    (if hash_of user password =~ user.password_hash
        then pure (some user)
        else print p (codes "Incorrect password!") >> pure none)

  -- `c.user = user`
  abbrev pub set_user : User → Act (Connection p) (Unit {0})
  set_user user c = some (record c { user = some user }, ok tt)

  -- AuthenticateUser
  abbrev pub authenticate : User → Act (Connection p) (Unit {0})
  authenticate user c = some (record c { caller = some user }, ok tt)

  -- The second loop of loginUser ends at once, if the connection has a user.
  abbrev pub unless_user : Act (Connection p) User → Act (Connection p) User
  unless_user m c = elim (c.user) [ none ↦ m c | some u ↦ some (c, ok u) ]

  -- loginUser, from its second loop on
  unfoldable pub login_as : ℕ → User → Act (Connection p) (Unit {0})
  unfolding ask_password until
  login_as fuel user = do
    entered ← unless_user (until p fuel (ask_password user))
    set_user entered
    authenticate entered
    print p (codes "Welcome back, " ++ entered.name ++ codes "!")

  -- loginUser
  unfoldable pub login_user : ℕ → Act (Connection p) (Unit {0})
  unfolding ask_username login_as
  login_user fuel = do
    print p (codes "** Login user **")
    user ← until p fuel ask_username
    login_as fuel user

  abbrev pub new_user : Text → User
  new_user name = record { id = 0; name = name; password_hash = []; owner = false; object = [] }

  abbrev pub fresh_user : Text → Result User → Act (Connection p) (Option User)
  fresh_user name (ok user) = print p (codes "Username already exists!") >> pure none
  fresh_user name (err e) = if is_not_exist e then pure (some (new_user name)) else raise e

  -- The first loop of createUser: a user of a name that is not taken.
  unfoldable pub ask_new_username : Act (Connection p) (Option User)
  unfolding read_line print
  ask_new_username = do
    print p (codes "Enter new username or [abort]:")
    username ← read_line p
    user ← λ c. some (c, ok (loaded username c))
    if username =~ codes "abort" then raise aborted else fresh_user username user

  abbrev pub selected : User → Text → Text → Act (Connection p) (Option User)
  selected user password selection =
      if selection =~ codes "abort"
      then raise aborted
      else (if selection =~ codes "y"
          then pure (some (record user { password_hash = hash_of user password }))
          else pure none)

  -- The second loop of createUser.
  unfoldable pub ask_new_password : ℕ → User → Act (Connection p) (Option User)
  unfolding read_line print select_return compute_ha1
  ask_new_password fuel user = do
    print p (codes "Enter new password:")
    password ← read_line p
    print p (codes "Repeat new password:")
    verification ← read_line p
    let question = codes "Create user \"" ++ user.name ++ codes "\" with provided password?"
    let asked : Act (Connection p) (Option User) = do
      selection ← select_return p fuel question (codes "y" ∷ codes "n" ∷ codes "abort" ∷ [])
      selected user password selection
    if password =~ verification
        then asked
        else print p (codes "Passwords don't match!") >> pure none

  -- The loops of createUser: the user that is entered.
  unfoldable pub enter_user : ℕ → Act (Connection p) User
  unfolding ask_new_username ask_new_password until
  enter_user fuel = do
    user ← until p fuel ask_new_username
    unless_user (until p fuel (ask_new_password fuel user))

  module _ (handler : Movement → Act (World p) (Unit {0})) (ref : Refresh p) where
    -- Connection.createUser: the user is set before it is stored.
    unfoldable pub create_user_at : ℕ → Act (Connection p) (Unit {0})
    unfolding enter_user create_user in_world
    create_user_at fuel = do
      print p (codes "** Create user **")
      entered ← enter_user fuel
      set_user entered
      stored ← in_world p (create_user p handler entered)
      set_user stored
      authenticate stored
      print p (codes "Welcome " ++ stored.name ++ codes "!")

    abbrev pub again_if_aborted :
        Option (Connection p × Result (Unit {0}))
        → Option (Connection p × Result (Option (Unit {0})))
    again_if_aborted none = none
    again_if_aborted (some (c, ok u)) = some (c, ok (some tt))
    again_if_aborted (some (c, err aborted)) = some (c, ok none)
    again_if_aborted (some (c, err e)) = some (c, err e)

    -- The loop of Connect: an operation that is aborted starts it again.
    unfoldable pub select_user : ℕ → Act (Connection p) (Unit {0})
    unfolding until select_exec login_user create_user_at
    select_user fuel = until p fuel λ c. again_if_aborted (
        select_exec p fuel
          ((codes "login user", login_user fuel) ∷ (codes "create user", create_user_at fuel) ∷ [])
          c)

    -- Connect, up to Process
    unfoldable pub enter : ℕ → Act (Connection p) (Unit {0})
    unfolding select_user describe_long in_world load_run_save connected_user
    enter fuel = do
      print p (codes "Welcome!")
      select_user fuel
      user ← connected_user p
      in_world p (
          lift (p.connected user.name user.object) >>= λ message.
          load_run_save p handler ref user.object (
            some (
              ok
                (record { name = connected_event_type; tag = emit_event_tag; message = message }))))
      describe_long p handler ref
