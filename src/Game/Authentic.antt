-- ===== src/Game/Authentic.antt =====
-- Who is logged in: only a user of the table, by a line that has the hash of that user.
use mathlib.Core.Path.{subst}
use mathlib.Core.List.{mem-cons_of_mem, mem-cons_self}
use juicemud.Base.{
  ℕ, suc, ◌<◌, ◌≡◌, refl, sym, ap, ◌∙◌, List, [], ◌∷◌, ◌++◌, Option, none, some, Text, ◌=~◌, =~_iff,
  codes, Mem, Result, ok, err, is_not_exist, arith, length, Bool-cases, inl, inr,
}
use juicemud.Base.Act.{Act, ◌>>=◌, pure, raise}
use juicemud.Files.{User}
use juicemud.Files.Access.{load_user}
use juicemud.Game.{Parts, World}
use juicemud.Game.Terminal.{Connection, until, read_line, print}
use juicemud.Game.Asking.{IsAt, Asked, Turned, until-Asked, continue-Asked}
use juicemud.Game.Login.{
  hash_of, ask_username, ask_password, login_user, login_as, known_user, unless_user,
}

module _ (p : Parts) (w : World p) (lines : List Text) where
  -- Of a connection without a user, whose world is this one, and whose terminal has only such lines.
  abbrev pub At : Connection p → Type 0
  At c = IsAt p w none c × ((line : Text) → Mem line c.input → Mem line lines)

  -- The user is a row of the table, under a name that is one of the lines.
  abbrev pub IsKnown : User → Type 0
  IsKnown user = (name : Text) × Mem name lines × (load_user p.sql w.files.sql name ≡ ok user)

  ask_username-Turned :
      (c : Connection p) → At c → Turned p At IsKnown (length c.input) (ask_username p c)
  unfolding ask_username ◌>>=◌ read_line print raise pure
  ask_username-Turned c ((h, k), l) = go c.input l
    where
      known :
          (line : Text) (ls : List Text) (r : Result User)
          → ((x : Text) → Mem x (line ∷ ls) → Mem x lines)
          → load_user p.sql (c.world).files.sql line ≡ r
          → Turned p At IsKnown (suc (length ls)) (
              known_user p r (record c {
                input = ls;
                output = c.output ++ codes "Enter username or [abort]:" ∷ [];
              }))
      known line ls (ok user) m e = (
        ((h, k), λ x n. m x (mem-cons_of_mem line n)),
        omega arith,
        (line, m line mem-cons_self, ap (λ x. load_user p.sql (x.files).sql line) (sym h) ∙ e),
      )
      known line ls (err x) m e = elim (Bool-cases (is_not_exist x)) [
        | inl t ↦ rw t (((h, k), λ y n. m y (mem-cons_of_mem line n)), omega arith)
        | inr t ↦ rw t (omega arith)
      ]

      go :
          (input : List Text)
          → ((x : Text) → Mem x input → Mem x lines)
          → Turned p At IsKnown (length input) (ask_username p (record c { input = input }))
      go [] m = omega arith
      go (line ∷ ls) m = elim (Bool-cases (line =~ codes "abort")) [
        | inl t ↦ rw (t, ask_username) (omega arith)
        | inr t ↦
            rw (t, ask_username) (known line ls (load_user p.sql (c.world).files.sql line) m refl)
      ]

  -- The user is this one, and one of the lines has the hash that is stored of it.
  abbrev pub HasPassword : User → User → Type 0
  HasPassword user entered =
      (entered ≡ user)
      × ((password : Text) × Mem password lines × (hash_of p user password ≡ user.password_hash))

  ask_password-Turned :
      (user : User) (c : Connection p)
      → At c
      → Turned p At (HasPassword user) (length c.input) (ask_password p user c)
  unfolding ask_password ◌>>=◌ read_line print pure
  ask_password-Turned user c ((h, k), l) = go c.input l
    where
      go :
          (input : List Text)
          → ((x : Text) → Mem x input → Mem x lines)
          → Turned p At
              (HasPassword user)
              (length input)
              (ask_password p user (record c { input = input }))
      go [] m = omega arith
      go (line ∷ ls) m = elim (Bool-cases (hash_of p user line =~ user.password_hash)) [
        | inl t ↦
            rw (t, ask_password)
              (
                ((h, k), λ x n. m x (mem-cons_of_mem line n)),
                omega arith,
                (
                  refl,
                  (
                    line,
                    m line mem-cons_self,
                    (=~_iff (hash_of p user line) user.password_hash).0 t,
                  ),
                ),
              )
        | inr t ↦ rw (t, ask_password) (((h, k), λ x n. m x (mem-cons_of_mem line n)), omega arith)
      ]

module _ (p : Parts) where
  -- The login ends; and if it ends well, then the connection, and its context, have a user of the
  -- table, of whose name and password lines were entered.
  abbrev pub LoggedIn : World p → List Text → Option (Connection p × Result (Unit {0})) → Type 0
  LoggedIn w lines none = ⊥
  LoggedIn w lines (some (c, err e)) = Unit
  LoggedIn w lines (some (c, ok done)) =
      (user : User) × (c.user ≡ some user)
      × (c.caller ≡ some user)
      × IsKnown p w lines user
      × ((password : Text) × Mem password lines × (hash_of p user password ≡ user.password_hash))

  pub unless_user-Asked :
      (At : Connection p → Type 0) (Good : User → Type 0) (m : Act (Connection p) User)
      (c : Connection p)
      → c.user ≡ none
      → Asked p At Good (length c.input) (m c)
      → Asked p At Good (length c.input) (unless_user p m c)
  unless_user-Asked At Good m c nobody h = go c.user nobody
    where
      go :
          (o : Option User)
          → o ≡ none
          → Asked p At Good (length c.input) (elim o [ none ↦ m c | some x ↦ some (c, ok x) ])
      go none e = h
      go (some x) e = absurd (cc)

  login_as-LoggedIn :
      (w : World p) (lines : List Text) (fuel : ℕ) (user : User) (c : Connection p)
      → At p w lines c
      → length c.input < fuel
      → IsKnown p w lines user
      → LoggedIn w lines (login_as p fuel user c)
  unfolding login_as ◌>>=◌ print
  login_as-LoggedIn w lines fuel user c at enough known =
      continue-Asked p (At p w lines) (HasPassword p w lines user) (LoggedIn w lines)
        (length c.input) _ _
        (unless_user-Asked (At p w lines) (HasPassword p w lines user)
          (until p fuel (ask_password p user)) c at.0.1
          (until-Asked p (At p w lines) (HasPassword p w lines user) (ask_password p user) fuel c
            (ask_password-Turned p w lines user) at enough))
        (λ _ _. tt)
        (λ c1 entered at1 le (same, has). (
          entered,
          refl,
          refl,
          subst (IsKnown p w lines) (sym same) known,
          subst
              (λ x.
                (password : Text) × Mem password lines × (hash_of p x password ≡ x.password_hash))
              (sym same) has,
        ))

  -- A login of a connection without a user ends, if the fuel is more than the lines that the terminal
  -- gives; and if it ends well, then the connection and its context have a user that the table has
  -- under a name that is one of those lines, and one of those lines has the hash that the table has of
  -- that user.
  pub login_user-LoggedIn :
      (fuel : ℕ) (c : Connection p)
      → c.user ≡ none
      → length c.input < fuel
      → LoggedIn c.world c.input (login_user p fuel c)
  unfolding login_user ◌>>=◌ print
  login_user-LoggedIn fuel c nobody enough =
      continue-Asked p (At p c.world c.input) (IsKnown p c.world c.input) (LoggedIn c.world c.input)
        (length c.input) _ _
        (until-Asked p (At p c.world c.input) (IsKnown p c.world c.input) (ask_username p) fuel
          (record c { output = c.output ++ codes "** Login user **" ∷ [] })
          (ask_username-Turned p c.world c.input) ((refl, nobody), λ x m. m) enough)
        (λ _ _. tt)
        (λ c1 user at le known.
          login_as-LoggedIn c.world c.input fuel user c1 at (omega (arith, le)) known)
