-- ===== src/Objects/Store.antt =====
-- StoreObject over the store: all or nothing, and consistent worlds stay consistent.
use juicemud.Base.{
  ◌≡◌, ◌≢◌, true, false, List, [], map, Option, none, some, Text, =~_iff, arith, Result, ok, err,
  has, ◌>>=◌,
}
use juicemud.Dbm.{Tkrzw, success, run_batch}
use juicemud.Dbm.Typed.{
  Values, Serializable, Encodes, as_proc, Applied, proc-Applied, eval_values, write_values,
}
use juicemud.Structs.{Object}
use juicemud.Objects.{Movement, store_pairs, movement_of, store_batch, store_object}
use juicemud.Objects.World.{contains, location_of, IsConsistent, IsCurrent, store_values}
use juicemud.Objects.Keeps.{Relocated, store-Relocated, store-where_is, store-at_id}

location_of-none : (vals : Values Object) (x : Text) → location_of vals x ≡ none → vals x ≡ none
unfolding location_of
location_of-none vals x h = ground arith

-- Moving one object on both sides keeps a consistent world consistent.
pub Relocated-IsConsistent :
    (vals vals' : Values Object) (id l : Text)
    → IsConsistent vals
    → id ≢ []
    → l ≢ id
    → Relocated vals vals' id l
    → IsConsistent vals'
unfolding location_of
Relocated-IsConsistent vals vals' id l fine named apart r = record {
  agree = λ x c n.
      ground (arith, r.where_is x, r.lists c x n, fine.agree x c n, =~_iff id x, =~_iff l c);
  apart = λ x. ground (arith, r.where_is x, fine.apart x, =~_iff id x);
  unnamed = location_of-none vals' [] (ground (arith, r.where_is [], fine.unnamed, =~_iff id []));
}

-- An object that is stored with a content of its own making.
module _ (vals : Values Object) (object : Object) (claimed : Option Text) (fine : IsConsistent vals)
    (current : IsCurrent vals object) (named : object.id ≢ [])
    (apart : object.location ≢ object.id) where
  -- Take a consistent world, and an object with an id that is not empty, that is not to lie in
  -- itself and whose content is the stored one. If the closures of StoreObject accept it, then
  -- after the write it lies in its location, on both sides, nothing else has moved, and the world
  -- is consistent.
  pub store_values-IsConsistent :
      (vals' : Values Object)
      → store_values vals claimed object ≡ ok vals'
      → Relocated vals vals' object.id object.location × IsConsistent vals'
  store_values-IsConsistent vals' h =
      let r = store-Relocated vals vals' object fine current apart claimed h in
      (r, Relocated-IsConsistent vals vals' object.id object.location fine named apart r)

module _ (t : Tkrzw) (s : Serializable Object)
    (handler : Movement → t.Db → t.Db × Result (Unit {0})) where
  -- How StoreObject ends, by what its closures make of the stored values.
  abbrev pub StoreDone :
      t.Db → Values Object → Option Text → Object → Result (Values Object) → Type 0
  StoreDone db vals claimed object (err e) =
      let (db', r) = store_object t s handler db claimed object in
      (r ≡ err e) × Encodes s (t.view db') vals
  StoreDone db vals claimed object (ok vals') =
      let (db', r) = store_batch t s db claimed object in
      Encodes s (t.view db') vals'
      × (store_object t s handler db claimed object
          ≡ elim (movement_of claimed object) [ none ↦ (db', ok tt) | some m ↦ handler m db' ])

  Applied-StoreDone :
      (db : t.Db) (vals : Values Object) (claimed : Option Text) (object : Object)
      (q : Result (List (Option Object)))
      → let (db', r) = store_batch t s db claimed object in
        Applied s vals (store_pairs claimed object) q (t.view db') r
        → StoreDone db vals claimed object
            (q >>= λ outs. ok (write_values vals (store_pairs claimed object) outs))
  unfolding store_object
  Applied-StoreDone db vals claimed object (ok outs) (e, w) = (w, rw (e, store_object))
  Applied-StoreDone db vals claimed object (err x) (e, w) =
      (rw (e, store_object), rw (e, store_object) w)

  -- If the store holds exactly the encodings of the given objects and tkrzw carries out the batch,
  -- StoreObject either returns the error of a closure and changes no object, or writes what the
  -- closures make of the stored values, and then, if the object has moved, ends with what the
  -- movement handler does.
  pub store_object-StoreDone :
      (db : t.Db) (vals : Values Object) (claimed : Option Text) (object : Object)
      → Encodes s (t.view db) vals
      → (run_batch t db (map (as_proc s) (store_pairs claimed object)) true).2 ≡ success
      → StoreDone db vals claimed object (store_values vals claimed object)
  unfolding store_values store_batch
  store_object-StoreDone db vals claimed object h e =
      Applied-StoreDone db vals claimed object (eval_values vals (store_pairs claimed object))
        (proc-Applied s t db vals (store_pairs claimed object) h e)

-- A store that loses what has moved in meanwhile: if, in a consistent world, `y` lies in an object
-- that is stored with a content without `y`, as one that was loaded before `y` moved in, then a
-- store that goes through leaves an inconsistent world. (The object has an id, is not to lie in
-- itself and is not `y`.)
pub stale-not-IsConsistent :
    (vals vals' : Values Object) (object : Object) (claimed : Option Text) (y : Text)
    → IsConsistent vals
    → object.location ≢ object.id
    → object.id ≢ []
    → y ≢ object.id
    → location_of vals y ≡ some object.id
    → has y object.content ≡ false
    → store_values vals claimed object ≡ ok vals'
    → ¬ IsConsistent vals'
unfolding contains
stale-not-IsConsistent vals vals' object claimed y fine apart named other lies lost h after =
    let kept = store-where_is vals vals' object fine apart claimed h y in
    let here = store-at_id vals vals' object fine apart claimed h in
    ground (arith, kept, here, after.agree y object.id named, =~_iff object.id y)
