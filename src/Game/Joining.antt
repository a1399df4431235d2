-- ===== src/Game/Joining.antt =====
-- The user that createUser has entered: a new name, and the hash of some password.
use juicemud.Base.{
  ℕ, suc, ◌<◌, ◌≡◌, refl, sym, ap, ◌∙◌, List, [], ◌∷◌, ◌++◌, Option, none, some, Text, ◌=~◌, codes,
  Result, ok, err, Error, is_not_exist, arith, length, Bool-cases, inl, inr, true,
}
use juicemud.Base.Act.{Act, continue, ◌>>=◌, ◌>>◌, pure, raise}
use juicemud.Files.{User}
use juicemud.Files.Access.{load_user}
use juicemud.Structs.{join}
use juicemud.Game.{Parts, World}
use juicemud.Game.Terminal.{Connection, until, read_line, print, select_return, equal_fold}
use juicemud.Game.Asking.{IsAt, Asked, Turned, until-Asked, until_below, continue-Asked}
use juicemud.Game.Authentic.{unless_user-Asked}
use juicemud.Game.Login.{
  hash_of, ask_new_username, ask_new_password, enter_user, fresh_user, new_user, selected,
  unless_user,
}

module _ (p : Parts) (w : World p) where
  -- The table has no user of the name, and what is not entered is empty.
  abbrev pub IsNew : User → Type 0
  IsNew user =
      (user ≡ new_user p user.name)
      × ((e : Error) × (load_user p.sql w.files.sql user.name ≡ err e) × (is_not_exist e ≡ true))

  ask_new_username-Turned :
      (c : Connection p)
      → IsAt p w none c
      → Turned p (IsAt p w none) IsNew (length c.input) (ask_new_username p c)
  unfolding ask_new_username ◌>>=◌ read_line print raise pure
  ask_new_username-Turned c (h, k) = go c.input
    where
      fresh :
          (line : Text) (lines : List Text) (r : Result User)
          → load_user p.sql (c.world).files.sql line ≡ r
          → Turned p (IsAt p w none) IsNew (suc (length lines)) (
              fresh_user p line r (record c {
                input = lines;
                output = c.output ++ codes "Enter new username or [abort]:" ∷ [];
              }))
      fresh line lines (ok user) e = ((h, k), omega arith)
      fresh line lines (err x) e = elim (Bool-cases (is_not_exist x)) [
        | inl t ↦ rw t (
          (h, k),
          omega arith,
          (refl, (x, ap (λ v. load_user p.sql (v.files).sql line) (sym h) ∙ e, t)),
        )
        | inr t ↦ rw t (omega arith)
      ]

      go :
          (input : List Text)
          → Turned p
              (IsAt p w none)
              IsNew
              (length input)
              (ask_new_username p (record c { input = input }))
      go [] = omega arith
      go (line ∷ lines) = elim (Bool-cases (line =~ codes "abort")) [
        | inl t ↦ rw (t, ask_new_username) (omega arith)
        | inr t ↦
            rw (t, ask_new_username)
              (fresh line lines (load_user p.sql (c.world).files.sql line) refl)
      ]

  select_return-Asked :
      (fuel : ℕ) (prompt : Text) (options : List Text) (c : Connection p)
      → IsAt p w none c
      → length c.input < fuel
      → Asked p
          (IsAt p w none)
          (λ choice. Unit {0})
          (length c.input)
          (select_return p fuel prompt options c)
  unfolding select_return ◌>>=◌ read_line print pure
  select_return-Asked fuel prompt options c at enough =
      until-Asked p (IsAt p w none) (λ choice. Unit {0}) _ fuel c (λ c h. go c h c.input) at enough
    where
      chosen :
          (c : Connection p) (h : IsAt p w none c) (lines : List Text) (o : Option Text)
          → Turned p
              (IsAt p w none)
              (λ choice. Unit {0})
              (suc (length lines))
              (some (record c { input = lines }, ok o))
      chosen c (h, k) lines none = ((h, k), omega arith)
      chosen c (h, k) lines (some choice) = ((h, k), omega arith, tt)

      go :
          (c : Connection p) (h : IsAt p w none c) (input : List Text)
          → Turned p
              (IsAt p w none)
              (λ choice. Unit {0})
              (length input)
              ((print p (prompt ++ codes " [" ++ join (codes "/") options ++ codes "]")
                  >> (read_line p >>= λ line. pure (equal_fold p line options)))
                (record c { input = input }))
      go c h [] = omega arith
      go c h (line ∷ lines) =
          chosen
            (record c {
              output =
                  c.output ++ (prompt ++ codes " [" ++ join (codes "/") options ++ codes "]") ∷ [];
            })
            h lines (equal_fold p line options)

  -- The user as it was entered, with the hash of some password.
  abbrev pub IsHashed : User → User → Type 0
  IsHashed user entered =
      (password : Text) × (entered ≡ record user { password_hash = hash_of p user password })

  selected-Turned :
      (user : User) (password selection : Text) (n : ℕ) (c : Connection p)
      → IsAt p w none c
      → length c.input < n
      → Turned p (IsAt p w none) (IsHashed user) n (selected p user password selection c)
  unfolding ◌>>=◌ raise pure
  selected-Turned user password selection n c at less =
      elim (Bool-cases (selection =~ codes "abort")) [
        | inl t ↦ rw t (omega (arith, less))
        | inr t ↦ elim (Bool-cases (selection =~ codes "y")) [
          | inl agreed ↦ rw (t, agreed) (at, omega (arith, less), (password, refl))
          | inr refused ↦ rw (t, refused) (at, less)
        ]
      ]

  chosen-Turned :
      {A : Type 0} (Good : A → Type 0) (m n : ℕ) (o : Option (Connection p × Result Text))
      (f : Text → Act (Connection p) (Option A))
      → m < n
      → Asked p (IsAt p w none) (λ choice. Unit {0}) m o
      → ((c : Connection p) (choice : Text)
          → IsAt p w none c
          → length c.input < n
          → Turned p (IsAt p w none) Good n (f choice c))
      → Turned p (IsAt p w none) Good n (continue o f)
  chosen-Turned Good m n none f less h rest = absurd h
  chosen-Turned Good m n (some (c, err e)) f less h rest = omega (arith, less, h)
  chosen-Turned Good m n (some (c, ok choice)) f less (at, le, u) rest =
      rest c choice at (omega (arith, less, le))

  abbrev question : User → Text
  question user = codes "Create user \"" ++ user.name ++ codes "\" with provided password?"

  ask_new_password-Turned :
      (fuel : ℕ) (user : User) (c : Connection p)
      → IsAt p w none c
      → length c.input < fuel
      → Turned p (IsAt p w none) (IsHashed user) (length c.input) (ask_new_password p fuel user c)
  unfolding ask_new_password ◌>>=◌ read_line print pure
  ask_new_password-Turned fuel user c at enough = go c.input enough
    where
      go :
          (input : List Text)
          → length input < fuel
          → Turned p
              (IsAt p w none)
              (IsHashed user)
              (length input)
              (ask_new_password p fuel user (record c { input = input }))
      go [] more = omega arith
      go (password ∷ []) more = omega arith
      go (password ∷ verification ∷ lines) more = elim (Bool-cases (password =~ verification)) [
        | inl same ↦
            rw (same, ask_new_password)
              (chosen-Turned (IsHashed user) (length lines) (suc (suc (length lines))) _ _
                (omega arith)
                (select_return-Asked fuel (question user)
                  (codes "y" ∷ codes "n" ∷ codes "abort" ∷ [])
                  (record c {
                    input = lines;
                    output =
                        (c.output ++ codes "Enter new password:" ∷ [])
                        ++ codes "Repeat new password:" ∷ [];
                  })
                  at (omega (arith, more)))
                (λ c1 choice at1 less.
                  selected-Turned user password choice _ c1 at1 (omega (arith, less))))
        | inr other ↦ rw (other, ask_new_password) (at, omega arith)
      ]

  -- The user has a name that is not taken, and the hash of a password; the rest of it is empty.
  abbrev pub IsEntered : User → Type 0
  IsEntered entered = (user : User) × IsNew user × IsHashed user entered

  -- The questions end; and if they end well, then nothing else has changed, and the user is such a one.
  abbrev pub Entered : Option (Connection p × Result User) → Type 0
  Entered none = ⊥
  Entered (some (c, err e)) = Unit
  Entered (some (c, ok entered)) = IsAt p w none c × IsEntered entered

  ask_password-Entered :
      (fuel : ℕ) (user : User) (c : Connection p)
      → IsAt p w none c
      → length c.input < fuel
      → IsNew user
      → Entered (unless_user p (until p fuel (ask_new_password p fuel user)) c)
  ask_password-Entered fuel user c at enough fresh =
      go (unless_user p (until p fuel (ask_new_password p fuel user)) c) (
        unless_user-Asked p (IsAt p w none) (IsHashed user)
          (until p fuel (ask_new_password p fuel user)) c at.1
          (until_below p (IsAt p w none) (IsHashed user) (ask_new_password p fuel user) fuel fuel c
            (ask_new_password-Turned fuel user) at enough enough))
    where
      go :
          (o : Option (Connection p × Result User))
          → Asked p (IsAt p w none) (IsHashed user) (length c.input) o
          → Entered o
      go none h = absurd h
      go (some (c1, err e)) h = tt
      go (some (c1, ok entered)) (at1, le, hashed) = (at1, (user, fresh, hashed))

module _ (p : Parts) where
  -- For a connection without a user, the questions of createUser end, if the fuel is more than the
  -- lines that the terminal gives; and if they end well, then the world and the user of the connection
  -- are as before, the table has no user of the name that was entered, and of the user that is entered
  -- nothing is set but that name and the hash of some password.
  pub enter_user-Entered :
      (fuel : ℕ) (c : Connection p)
      → c.user ≡ none
      → length c.input < fuel
      → Entered p c.world (enter_user p fuel c)
  unfolding enter_user ◌>>=◌
  enter_user-Entered fuel c nobody enough =
      continue-Asked p (IsAt p c.world none) (IsNew p c.world) (Entered p c.world) (length c.input)
        _ _
        (until-Asked p (IsAt p c.world none) (IsNew p c.world) (ask_new_username p) fuel c
          (ask_new_username-Turned p c.world) (refl, nobody) enough)
        (λ _ _. tt)
        (λ c1 user at le fresh.
          ask_password-Entered p c.world fuel user c1 at (omega (arith, le, enough)) fresh)
