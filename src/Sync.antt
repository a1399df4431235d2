-- ===== src/Sync.antt =====
-- juicemud.go: SyncMap, a map under a mutex with a lock for each key, and Increment, a clock that
-- never gives a value twice. A method that holds the mutex throughout is one function on the map.
pub mod Locks
pub mod Exclusion
pub mod Clock
pub mod Ascent
mod Tests
use juicemud.Base.{
  ◌≡◌, refl, Bool, true, false, List, [], ◌∷◌, Option, none, some, Text, ◌=~◌, if◌then◌else◌, arith,
  Assoc, lookup, insert, erase, has, lookup-insert, lookup-erase, =~_iff, Bool-cases,
}

-- The map that a SyncMap guards (its locks are the model of `Locks`).
module _ {V : Type 0} where
  -- SyncMap.Clone
  pub clone_into : Assoc V → Assoc V → Assoc V
  clone_into result [] = result
  clone_into result ((k, v) ∷ m) = clone_into (insert k v result) m

  pub clone : Assoc V → Assoc V
  unfolding clone_into
  clone m = clone_into [] m

  -- SyncMap.Replace: the new map, whatever was there.
  pub replace : Assoc V → Assoc V → Assoc V
  unfolding clone_into
  replace m new = clone_into [] new

  -- SyncMap.GetHas
  pub get_has : V → Assoc V → Text → V × Bool
  get_has zero_value m k = elim (lookup k m) [ none ↦ (zero_value, false) | some v ↦ (v, true) ]

  -- SyncMap.Get
  pub get : V → Assoc V → Text → V
  get zero_value m k = elim (lookup k m) [ none ↦ zero_value | some v ↦ v ]

  -- SyncMap.Set
  pub set : Assoc V → Text → V → Assoc V
  set m k v = insert k v m

  -- SyncMap.Del
  pub del : Assoc V → Text → Assoc V
  del m k = erase k m

  -- SyncMap.Swap, with the equality of the values
  pub swap : V → (V → V → Bool) → Assoc V → Text → V → V → Assoc V × Bool
  unfolding get
  swap zero_value same m k old_value new_value =
      if same (get zero_value m k) old_value then (insert k new_value m, true) else (m, false)
