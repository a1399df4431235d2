-- ===== src/Objects.antt =====
-- storage/storage.go, the objects: Movement, StoreObject, EnsureObject and LoadObject over the typed
-- store of storage/dbm. The movement handler of the game is a parameter.
pub mod World
pub mod Moves
pub mod Keeps
pub mod Store
mod Tests
use juicemud.Base.{
  ◌≡◌, Bool, true, false, ◌||◌, List, [], ◌∷◌, map, Option, none, some, Text, ◌=~◌, is_empty,
  if◌then◌else◌, ltb, ℕ, Error, not_exist, invalid, Result, ok, err, insert, erase, has, ◌>>=◌,
}
use juicemud.Dbm.{Tkrzw, hash_proc}
use juicemud.Dbm.Typed.{Serializable, SProc, as_proc, type_get}
use juicemud.Structs.{Object}

pub record Movement : Type 0 where
  pub object : Object
  pub source : Text
  pub destination : Text

-- The closure that stores an object at its own id, if it is new or has not moved.
unfoldable pub store_self : Object → Text → Option Object → Result (Option Object)
store_self object key none = ok (some object)
store_self object key (some value) =
    if value.location =~ object.location then ok (some object) else err invalid

-- `value.Content[object.Id] = true`
unfoldable pub add_content : Object → Text → Object
add_content value id = record value { content = insert id true value.content }

-- `delete(value.Content, object.Id)`
unfoldable pub drop_content : Object → Text → Object
drop_content value id = record value { content = erase id value.content }

-- The closure that adds the object to its location; the error is what the caller gives.
unfoldable pub enter_location : Error → Object → Text → Option Object → Result (Option Object)
unfolding add_content
enter_location e object key none = err e
enter_location e object key (some value) = ok (some (add_content value object.id))

-- The closure that stores an object that moves.
unfoldable pub store_moved : Text → Object → Text → Option Object → Result (Option Object)
store_moved old object key none = err invalid
store_moved old object key (some value) =
    if value.location =~ old then ok (some object) else err invalid

-- The closure that takes the object out of its old location.
unfoldable pub leave_location : Object → Text → Option Object → Result (Option Object)
unfolding drop_content
leave_location object key none = err invalid
leave_location object key (some value) =
    if has object.id value.content then ok (some (drop_content value object.id)) else err invalid

-- `claimedOldLocation == nil || *claimedOldLocation == object.Location`
unfoldable pub is_still : Option Text → Object → Bool
is_still none object = true
is_still (some old) object = old =~ object.location

abbrev pub stay_pairs : Object → List (SProc Object)
stay_pairs object =
    if is_empty object.location
    then record { k = object.id; f = store_self object } ∷ []
    else record { k = object.location; f = enter_location not_exist object }
      ∷ record { k = object.id; f = store_self object }
      ∷ []

abbrev pub move_pairs : Text → Object → List (SProc Object)
move_pairs old object =
    record { k = object.id; f = store_moved old object }
    ∷ record { k = object.location; f = enter_location invalid object }
    ∷ record { k = old; f = leave_location object }
    ∷ []

-- The pairs that StoreObject hands to Proc.
unfoldable pub store_pairs : Option Text → Object → List (SProc Object)
unfolding is_still
store_pairs none object = stay_pairs object
store_pairs (some old) object =
    if is_still (some old) object then stay_pairs object else move_pairs old object

-- The movement that StoreObject reports.
unfoldable pub movement_of : Option Text → Object → Option Movement
unfolding is_still
movement_of none object = none
movement_of (some old) object =
    if is_still (some old) object
    then none
    else some (record { object = object; source = old; destination = object.location })

-- The closure of EnsureObject.
unfoldable pub ensure :
    Text → (Object → Result Object) → Object → Text → Option Object → Result (Option Object)
ensure id setup blank k (some v) = ok (some v)
ensure id setup blank k none = setup (record blank { id = id }) >>= λ object. ok (some object)

module _ (t : Tkrzw) (s : Serializable Object) where
  open t use {Db}

  -- The call of Proc in StoreObject.
  unfoldable pub store_batch : Db → Option Text → Object → Db × Result (Unit {0})
  unfolding store_pairs
  store_batch db claimed object = hash_proc t db (map (as_proc s) (store_pairs claimed object)) true

  -- StoreObject
  pub store_object :
      (Movement → Db → Db × Result (Unit {0})) → Db → Option Text → Object → Db × Result (Unit {0})
  unfolding store_batch movement_of
  store_object handler db claimed object =
      let (db', r) = store_batch db claimed object in
      elim r [
        | err e ↦ (db', err e)
        | ok _ ↦ elim (movement_of claimed object) [ none ↦ (db', ok tt) | some m ↦ handler m db' ]
      ]

  -- EnsureObject; `blank` is the zero value of Object.
  pub ensure_object : Object → Db → Text → (Object → Result Object) → Db × Result (Unit {0})
  unfolding ensure
  ensure_object blank db id setup =
      hash_proc t db (as_proc s (record { k = id; f = ensure id setup blank }) ∷ []) true

  -- LoadObject without a Refresh
  unfoldable pub load_object : Db → Text → Result Object
  load_object db id = type_get s t db id
