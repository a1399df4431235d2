-- ===== src/Base/Maps.antt =====
-- Go maps with string keys, as association lists: a write replaces the entry of its key.
use mathlib.Core.Path.{◌≡◌, refl}
use mathlib.Core.Bool.{Bool, true, false}
use mathlib.Core.Option.{Option, none, some}
use mathlib.Core.List.{List, [], ◌∷◌}
use native.Mathlib.Omega.{arith}
use juicemud.Base.Tests.{if◌then◌else◌}
use juicemud.Base.Strings.{Text, ◌=~◌, =~_iff}

abbrev pub Assoc {ℓ} : Type ℓ → Type ℓ
Assoc V = List (Text × V)

module _ {ℓ} {V : Type ℓ} where
  -- `m[k]`
  unfoldable pub lookup : Text → Assoc V → Option V
  lookup k [] = none
  lookup k ((j, v) ∷ m) = if j =~ k then some v else lookup k m

  -- `m[k] = v`
  unfoldable pub insert : Text → V → Assoc V → Assoc V
  insert k v [] = (k, v) ∷ []
  insert k v ((j, w) ∷ m) = if j =~ k then (k, v) ∷ m else (j, w) ∷ insert k v m

  -- `delete(m, k)`
  unfoldable pub erase : Text → Assoc V → Assoc V
  erase k [] = []
  erase k ((j, w) ∷ m) = let rest = erase k m in if j =~ k then rest else (j, w) ∷ rest

  pub lookup-insert :
      (j k : Text) (v : V) (m : Assoc V)
      → lookup j (insert k v m) ≡ (if k =~ j then some v else lookup j m)
  unfolding lookup insert
  lookup-insert j k v [] = refl
  lookup-insert j k v ((i, w) ∷ m) =
      ground (arith, =~_iff k j, =~_iff i k, =~_iff i j, lookup-insert j k v m)

  pub lookup-erase :
      (j k : Text) (m : Assoc V) → lookup j (erase k m) ≡ (if k =~ j then none else lookup j m)
  unfolding lookup erase
  lookup-erase j k [] = ground arith
  lookup-erase j k ((i, w) ∷ m) =
      ground (arith, =~_iff k j, =~_iff i k, =~_iff i j, lookup-erase j k m)

  -- `_, found := m[k]`
  abbrev pub has : Text → Assoc V → Bool
  has k m = elim (lookup k m) [ none ↦ false | some _ ↦ true ]
