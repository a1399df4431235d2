-- ===== src/Objects/Keeps.antt =====
-- StoreObject moves one object, on both sides, and so keeps the world consistent.
use juicemud.Base.{◌≡◌, ◌≢◌, false, [], Option, some, Text, ◌=~◌, =~_iff, if◌then◌else◌, arith, ok}
use juicemud.Dbm.Typed.{Values}
use juicemud.Structs.{Object}
use juicemud.Objects.{is_still}
use juicemud.Objects.World.{contains, location_of, IsConsistent, IsCurrent, store_values}
use juicemud.Objects.Moves.{
  Moved, Stayed, StayedOut, store_cases, has-add_content, has-drop_content, add_content-location,
  drop_content-location,
}

-- `x` has gone to `l`, on both sides, and no other object has moved.
pub record Relocated (vals vals' : Values Object) (id l : Text) : Type 0 where
  pub where_is : (x : Text) → location_of vals' x ≡ (if id =~ x then some l else location_of vals x)
  pub lists :
      (c x : Text) → c ≢ [] → contains vals' c x ≡ (if id =~ x then l =~ c else contains vals c x)

-- These need no current content.
module _ (vals vals' : Values Object) (object : Object) (fine : IsConsistent vals)
    (apart : object.location ≢ object.id) where
  -- Where objects lie after a store, and what is stored.
  abbrev Placed : Type 0
  Placed =
      ((x : Text)
        → location_of vals' x
          ≡ (if object.id =~ x then some object.location else location_of vals x))
      × (vals' object.id ≡ some object)

  Placed_of_Moved :
      (old : Text) → is_still (some old) object ≡ false → Moved vals object vals' old → Placed
  unfolding location_of is_still
  Placed_of_Moved old still m =
      let id = object.id in
      let l = object.location in
      let not_in_itself : old ≢ id = ground (arith, fine.apart id, m.at_id, m.came) in
      (
        (λ x. ground (
          arith,
          m.result x,
          =~_iff id x,
          =~_iff l x,
          =~_iff old x,
          m.at_new,
          m.at_old,
          add_content-location m.v id,
          drop_content-location m.w id,
        )),
        ground (arith, m.result id, =~_iff id id, =~_iff l id, =~_iff old id),
      )

  Placed_of_Stayed : Stayed vals object vals' → Placed
  unfolding location_of
  Placed_of_Stayed m =
      let id = object.id in
      (
        (λ x. ground (
          arith,
          m.result x,
          =~_iff id x,
          =~_iff object.location x,
          m.at_loc,
          add_content-location m.v id,
        )),
        ground (arith, m.result id, =~_iff id id),
      )

  Placed_of_StayedOut : StayedOut vals object vals' → Placed
  unfolding location_of
  Placed_of_StayedOut m =
      let id = object.id in
      ((λ x. ground (arith, m.result x, =~_iff id x)), ground (arith, m.result id, =~_iff id id))

  Placed_of_store : (claimed : Option Text) → store_values vals claimed object ≡ ok vals' → Placed
  Placed_of_store =
      store_cases vals object vals' Placed_of_Moved Placed_of_Stayed Placed_of_StayedOut

  pub store-where_is :
      (claimed : Option Text)
      → store_values vals claimed object ≡ ok vals'
      → (x : Text)
      → location_of vals' x ≡ (if object.id =~ x then some object.location else location_of vals x)
  store-where_is claimed h = (Placed_of_store claimed h).0

  pub store-at_id :
      (claimed : Option Text)
      → store_values vals claimed object ≡ ok vals'
      → vals' object.id ≡ some object
  store-at_id claimed h = (Placed_of_store claimed h).1

module _ (vals vals' : Values Object) (object : Object) (fine : IsConsistent vals)
    (current : IsCurrent vals object) (apart : object.location ≢ object.id) where
  abbrev Lists : Type 0
  Lists =
      (c x : Text)
      → c ≢ []
      → contains vals' c x ≡ (if object.id =~ x then object.location =~ c else contains vals c x)

  Lists_of_Moved :
      (old : Text) → is_still (some old) object ≡ false → Moved vals object vals' old → Lists
  unfolding location_of contains is_still
  Lists_of_Moved old still m =
      let id = object.id in
      let l = object.location in
      let not_in_itself : old ≢ id = ground (arith, fine.apart id, m.at_id, m.came) in
      λ c x named. ground (
        arith,
        m.result c,
        m.result x,
        =~_iff id x,
        =~_iff l c,
        =~_iff old c,
        =~_iff id c,
        =~_iff old l,
        m.at_id,
        m.at_new,
        m.at_old,
        m.came,
        has-add_content m.v id x,
        has-drop_content m.w id x,
        current x,
        fine.agree x c named,
      )

  Lists_of_Stayed : Stayed vals object vals' → Lists
  unfolding location_of contains
  Lists_of_Stayed m =
      let id = object.id in
      let l = object.location in
      λ c x named. ground (
        arith,
        m.result c,
        m.was_here,
        =~_iff id x,
        =~_iff l c,
        =~_iff id c,
        m.at_loc,
        has-add_content m.v id x,
        current x,
        fine.agree x c named,
      )

  Lists_of_StayedOut : StayedOut vals object vals' → Lists
  unfolding location_of contains
  Lists_of_StayedOut m =
      let id = object.id in
      λ c x named. ground (
        arith,
        m.result c,
        m.was_here,
        m.nowhere,
        =~_iff id x,
        =~_iff object.location c,
        =~_iff id c,
        current x,
        fine.agree x c named,
      )

  pub store-Relocated :
      (claimed : Option Text)
      → store_values vals claimed object ≡ ok vals'
      → Relocated vals vals' object.id object.location
  store-Relocated claimed h = record {
    where_is = store-where_is vals vals' object fine apart claimed h;
    lists =
        store_cases vals object vals' Lists_of_Moved Lists_of_Stayed Lists_of_StayedOut claimed h;
  }
