-- ===== src/Objects/World.antt =====
-- Where objects are, as the two sides tell it: an object's own Location, and the Content of a
-- container. What StoreObject should do to both.
use juicemud.Base.{
  ◌≡◌, ◌≢◌, ◌↔◌, Bool, true, false, [], Option, none, some, Text, Result, ok, has, ◌>>=◌,
}
use juicemud.Dbm.Typed.{Values, eval_values, write_values}
use juicemud.Structs.{Object}
use juicemud.Objects.{store_pairs}

-- The container `c` lists `x`.
unfoldable pub contains : Values Object → Text → Text → Bool
contains vals c x = elim (vals c) [ none ↦ false | some o ↦ has x o.content ]

-- The location that `x` itself names.
unfoldable pub location_of : Values Object → Text → Option Text
location_of vals x = elim (vals x) [ none ↦ none | some o ↦ some o.location ]

-- The two sides agree, nothing lies in itself, and no object has the empty id.
pub record IsConsistent (vals : Values Object) : Type 0 where
  pub agree : (x c : Text) → c ≢ [] → (contains vals c x ≡ true) ↔ (location_of vals x ≡ some c)
  pub apart : (x : Text) → location_of vals x ≢ some x
  pub unnamed : vals [] ≡ none

-- The content that the object is stored with is the one that the store has for it.
abbrev pub IsCurrent : Values Object → Object → Type 0
IsCurrent vals object = (x : Text) → has x object.content ≡ contains vals object.id x

-- What the closures of StoreObject make of the stored values.
unfoldable pub store_values : Values Object → Option Text → Object → Result (Values Object)
store_values vals claimed object = eval_values vals (store_pairs claimed object) >>= λ outs.
    ok (write_values vals (store_pairs claimed object) outs)
