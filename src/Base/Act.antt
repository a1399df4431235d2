-- ===== src/Base/Act.antt =====
-- Code that changes a state and may fail: what it changed before it failed stays changed. `none` means
-- that a bound on recursion ran out.
use mathlib.Core.Bool.{Bool, true, false}
use mathlib.Core.Option.{Option, none, some}
use juicemud.Base.Tests.{if◌then◌else◌}
use juicemud.Base.Errors.{Error, Result, ok, err}

abbrev pub Act {ℓ} : Type ℓ → Type ℓ → Type ℓ
Act S A = S → Option (S × Result A)

module _ {ℓ} {S A : Type ℓ} where
  unfoldable pub pure : A → Act S A
  pure a s = some (s, ok a)

  unfoldable pub raise : Error → Act S A
  raise e s = some (s, err e)

  unfoldable pub lift : Result A → Act S A
  lift r s = some (s, r)

  unfoldable pub reads : (S → A) → Act S A
  reads f s = some (s, ok (f s))

  -- What an action that cannot run out leaves and gives.
  unfoldable pub runs : (S → S × Result A) → Act S A
  runs f s = some (f s)

  -- What holds of the state where an action ends, whether it returns or fails.
  abbrev pub Left : (S → Type ℓ) → Option (S × Result A) → Type ℓ
  Left P none = Unit
  Left P (some (s, r)) = P s

module _ {ℓ} {S A B : Type ℓ} where
  abbrev pub continue : Option (S × Result A) → (A → Act S B) → Option (S × Result B)
  continue none f = none
  continue (some (s, ok a)) f = f a s
  continue (some (s, err e)) f = some (s, err e)

  infixl 5 ◌>>=◌ ◌>>◌
  -- opening this opens the actions above, too
  unfoldable pub ◌>>=◌ : Act S A → (A → Act S B) → Act S B
  unfolding pure raise lift reads runs
  ◌>>=◌ m f s = continue (m s) f

  abbrev pub ◌>>◌ : Act S A → Act S B → Act S B
  m >> n = m >>= λ _. n

-- The action keeps `P`, whether it returns or fails.
pub record Keeps {ℓ} {S A : Type ℓ} (P : S → Type ℓ) (m : Act S A) : Type ℓ where
  pub at : (s : S) → P s → Left P (m s)

module _ {ℓ} {S A : Type ℓ} {P : S → Type ℓ} where
  pub Keeps-lift : (r : Result A) → Keeps P (lift r)
  unfolding lift
  Keeps-lift r = record { at = λ s h. h }

  pub Keeps-pure : (a : A) → Keeps P (pure a)
  unfolding pure
  Keeps-pure a = record { at = λ s h. h }

  pub Keeps-reads : (f : S → A) → Keeps P (reads f)
  unfolding reads
  Keeps-reads f = record { at = λ s h. h }

  pub Keeps-runs : (f : S → S × Result A) → ((s : S) → P s → P (f s).0) → Keeps P (runs f)
  unfolding runs
  Keeps-runs f h = record { at = h }

  pub Keeps-if : (b : Bool) (m n : Act S A) → Keeps P m → Keeps P n → Keeps P (if b then m else n)
  Keeps-if true m n km kn = km
  Keeps-if false m n km kn = kn

module _ {ℓ} {S A B : Type ℓ} {P : S → Type ℓ} where
  Left-continue :
      (o : Option (S × Result A)) (f : A → Act S B)
      → Left P o
      → ((a : A) → Keeps P (f a))
      → Left P (continue o f)
  Left-continue none f h kf = tt
  Left-continue (some (s, ok a)) f h kf = (kf a).at s h
  Left-continue (some (s, err e)) f h kf = h

  pub Keeps-bind :
      (m : Act S A) (f : A → Act S B) → Keeps P m → ((a : A) → Keeps P (f a)) → Keeps P (m >>= f)
  unfolding ◌>>=◌
  Keeps-bind m f km kf = record { at = λ s h. Left-continue (m s) f (km.at s h) kf }
