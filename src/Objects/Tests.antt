-- ===== src/Objects/Tests.antt =====
-- Storing objects at concrete inputs: a user `u` in the room `g`, and a room `h`.
use juicemud.Base.{
  ℕ, ◌≡◌, ◌≢◌, refl, Bool, true, false, List, [], ◌∷◌, Option, none, some, Text, ◌=~◌, =~_iff,
  Bool-cases, inl, inr, ◌↔◌, arith, Result, ok, err, has, lookup, is_empty, insert, erase,
  if◌then◌else◌,
}
use juicemud.Dbm.{run_batch}
use juicemud.Dbm.Typed.{Values, encode, eval_values, write_values}
use juicemud.Dbm.Memory.{memory}
use juicemud.Structs.{Object}
use juicemud.Structs.Encoding.{object_bytes}
use juicemud.Objects.{
  Movement, store_pairs, store_moved, enter_location, leave_location, store_self,
}
use juicemud.Objects.World.{contains, location_of, IsConsistent, IsCurrent, store_values}
use juicemud.Objects.Keeps.{Relocated}
use juicemud.Objects.Store.{
  store_values-IsConsistent, StoreDone, store_object-StoreDone, stale-not-IsConsistent,
}

abbrev g : Text
g = b'g' ∷ []

abbrev u : Text
u = b'u' ∷ []

abbrev h : Text
h = b'h' ∷ []

abbrev stored_or : Values Object → Result (Values Object) → Values Object
stored_or vals (ok vals') = vals'
stored_or vals (err e) = vals

abbrev thing : Text → Text → List (Text × Bool) → Object
thing id l content = record {
  id = id;
  callbacks = [];
  state = [];
  location = l;
  content = content;
  skills = [];
  descriptions = [];
  exits = [];
  source_path = [];
  source_mod_time = 0;
}

abbrev world : Values Object
world j =
    if h =~ j
    then some (thing h [] [])
    else if u =~ j
    then some (thing u g [])
    else if g =~ j
    then some (thing g [] ((u, true) ∷ []))
    else none

location_of-world :
    (x : Text)
    → location_of world x
      ≡ (if h =~ x then some [] else if u =~ x then some g else if g =~ x then some [] else none)
unfolding location_of
location_of-world x = elim (Bool-cases (h =~ x)) [
  | inl a ↦ rw (a, location_of)
  | inr a ↦ elim (Bool-cases (u =~ x)) [
    | inl b ↦ rw (a, b, location_of)
    | inr b ↦ elim (Bool-cases (g =~ x)) [
      | inl c ↦ rw (a, b, c, location_of)
      | inr c ↦ rw (a, b, c, location_of)
    ]
  ]
]

has-u : (x : Text) → has x ((u, true) ∷ []) ≡ (u =~ x)
unfolding lookup
has-u x = ground arith

contains-world :
    (c x : Text)
    → contains world c x
      ≡ (if h =~ c then false else if u =~ c then false else if g =~ c then u =~ x else false)
unfolding contains lookup
contains-world c x = elim (Bool-cases (h =~ c)) [
  | inl a ↦ rw (a, contains)
  | inr a ↦ elim (Bool-cases (u =~ c)) [
    | inl b ↦ rw (a, b, contains)
    | inr b ↦ elim (Bool-cases (g =~ c)) [
      | inl d ↦ rw (a, b, d, contains) (has-u x)
      | inr d ↦ rw (a, b, d, contains)
    ]
  ]
]

world-agree : (x c : Text) → c ≢ [] → (contains world c x ≡ true) ↔ (location_of world x ≡ some c)
world-agree x c n =
    rw (location_of-world x, contains-world c x)
      (ground (arith, =~_iff u x, =~_iff g x, =~_iff h x, =~_iff g c, =~_iff h c, =~_iff u c))

world-apart : (x : Text) → location_of world x ≢ some x
world-apart x = rw (location_of-world x) (ground (arith, =~_iff u x, =~_iff g x, =~_iff h x))

world-IsConsistent : IsConsistent world
unfolding ◌=~◌
world-IsConsistent = record { agree = world-agree; apart = world-apart; unnamed = refl }

user-IsCurrent : IsCurrent world (thing u h [])
unfolding contains lookup ◌=~◌
user-IsCurrent x = refl

-- What is stored when `u` goes to `h`.
abbrev moved : Values Object
moved = stored_or world (store_values world (some g) (thing u h []))

goes : store_values world (some g) (thing u h []) ≡ ok moved
unfolding store_values eval_values write_values store_pairs store_moved enter_location
    leave_location lookup insert erase ◌=~◌
goes = refl

lies : (location_of moved u ≡ some h) × (contains moved g u ≡ false) × (contains moved h u ≡ true)
unfolding location_of contains store_values eval_values write_values store_pairs store_moved
    enter_location leave_location lookup insert erase ◌=~◌
lies = (refl, refl, refl)

store_values-IsConsistent_example : Relocated world moved u h × IsConsistent moved
store_values-IsConsistent_example =
    store_values-IsConsistent world (thing u h []) (some g) world-IsConsistent user-IsCurrent
      (λ e. cc) (λ e. ground (arith, e)) moved goes

-- The zero value in a store in memory.
abbrev stored_world : Text → Option (List ℕ)
stored_world k = encode object_bytes (world k)

abbrev no_handler :
    Movement → (Text → Option (List ℕ)) → (Text → Option (List ℕ)) × Result (Unit {0})
no_handler m db = (db, ok tt)

store_object-StoreDone_example :
    StoreDone memory object_bytes no_handler stored_world world
      (some g)
      (thing u h [])
      (store_values world (some g) (thing u h []))
unfolding run_batch
store_object-StoreDone_example =
    store_object-StoreDone memory object_bytes no_handler stored_world world (some g) (thing u h [])
      (λ k. refl) refl

-- `g` is stored again as it was before `u` came into it.
abbrev stale_g : Object
stale_g = thing g [] []

abbrev overwritten : Values Object
overwritten = stored_or world (store_values world none stale_g)

stale-not-IsConsistent_example : ¬ IsConsistent overwritten
unfolding location_of contains store_values eval_values write_values store_pairs store_self lookup
    is_empty ◌=~◌
stale-not-IsConsistent_example =
    stale-not-IsConsistent world overwritten stale_g none u world-IsConsistent (λ e. cc) (λ e. cc)
      (λ e. ground (arith, e)) refl refl refl
