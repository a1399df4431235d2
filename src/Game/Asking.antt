-- ===== src/Game/Asking.antt =====
-- Loops at the terminal: that they end, and what holds of what they give.
use juicemud.Base.{
  ℕ, zero, suc, ◌≤◌, ◌<◌, ◌≡◌, Option, none, some, Error, Result, ok, err, arith, length,
}
use juicemud.Base.Act.{Act, ◌>>=◌, continue, pure}
use juicemud.Files.{User}
use juicemud.Game.{Parts, World}
use juicemud.Game.Terminal.{Connection, until}

module _ (p : Parts) (w : World p) (u : Option User) where
  -- The world and the user are still these.
  abbrev pub IsAt : Connection p → Type 0
  IsAt c = (c.world ≡ w) × (c.user ≡ u)

module _ (p : Parts) (At : Connection p → Type 0) where
  -- A question ends with an answer that is good, at a state of the connection as it should be, or with an error; and it
  -- leaves no more lines than there were.
  abbrev pub Asked : {A : Type 0} → (A → Type 0) → ℕ → Option (Connection p × Result A) → Type 0
  Asked Good n none = ⊥
  Asked Good n (some (c, err e)) = length c.input ≤ n
  Asked Good n (some (c, ok a)) = At c × (length c.input ≤ n) × Good a

  -- So does one turn of a loop, or it gives nothing and has read a line.
  abbrev pub Turned :
      {A : Type 0} → (A → Type 0) → ℕ → Option (Connection p × Result (Option A)) → Type 0
  Turned Good n none = ⊥
  Turned Good n (some (c, err e)) = length c.input ≤ n
  Turned Good n (some (c, ok none)) = At c × (length c.input < n)
  Turned Good n (some (c, ok (some a))) = At c × (length c.input ≤ n) × Good a

  pub Asked-le :
      {A : Type 0} (Good : A → Type 0) (m n : ℕ) (o : Option (Connection p × Result A))
      → m ≤ n
      → Asked Good m o
      → Asked Good n o
  Asked-le Good m n none le h = h
  Asked-le Good m n (some (c, err e)) le h = omega (arith, h, le)
  Asked-le Good m n (some (c, ok a)) le (at, less, good) = (at, omega (arith, less, le), good)

  -- What comes after a question.
  pub continue-Asked :
      {A B : Type 0} (Good : A → Type 0) (R : Option (Connection p × Result B) → Type 0) (n : ℕ)
      (o : Option (Connection p × Result A)) (f : A → Act (Connection p) B)
      → Asked Good n o
      → ((c : Connection p) (e : Error) → R (some (c, err e)))
      → ((c : Connection p) (a : A) → At c → length c.input ≤ n → Good a → R (f a c))
      → R (continue o f)
  continue-Asked Good R n none f h errs good = absurd h
  continue-Asked Good R n (some (c, err e)) f h errs good = errs c e
  continue-Asked Good R n (some (c, ok a)) f (at, le, g) errs good = good c a at le g

  module _ {A : Type 0} (Good : A → Type 0) (body : Act (Connection p) (Option A)) where
    -- A loop of turns that go well below a number of lines ends, on more fuel than there are lines, and
    -- then gives a good answer or an error.
    pub until_below :
        (bound fuel : ℕ) (c : Connection p)
        → ((c : Connection p)
            → At c
            → length c.input < bound
            → Turned Good (length c.input) (body c))
        → At c
        → length c.input < bound
        → length c.input < fuel
        → Asked Good (length c.input) (until p fuel body c)
    unfolding until ◌>>=◌
    until_below bound zero c turns at few enough = absurd (omega arith)
    until_below bound (suc fuel) c turns at few enough =
        go (body c) (turns c at few)
          (λ c' at' less. until_below bound fuel c' turns at' (omega (arith, few)) (omega arith))
      where
        go :
            (o : Option (Connection p × Result (Option A)))
            → Turned Good (length c.input) o
            → ((c' : Connection p)
                → At c'
                → length c'.input < length c.input
                → Asked Good (length c'.input) (until p fuel body c'))
            → Asked Good
                (length c.input)
                (continue o (λ x. elim x [ none ↦ until p fuel body | some a ↦ pure a ]))
        go none t rest = t
        go (some (c', err e)) t rest = t
        go (some (c', ok (some a))) t rest = t
        go (some (c', ok none)) (at', less) rest =
            Asked-le Good _ _ (until p fuel body c') (omega (arith, less)) (rest c' at' less)

    pub until-Asked :
        (fuel : ℕ) (c : Connection p)
        → ((c : Connection p) → At c → Turned Good (length c.input) (body c))
        → At c
        → length c.input < fuel
        → Asked Good (length c.input) (until p fuel body c)
    until-Asked fuel c turns at enough =
        until_below (suc (length c.input)) fuel c (λ c1 at1 few. turns c1 at1) at (omega arith)
          enough
