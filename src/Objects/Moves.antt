-- ===== src/Objects/Moves.antt =====
-- What a batch of StoreObject that goes through has read and written.
use juicemud.Base.{
  ◌≡◌, refl, inl, inr, ◌⊎◌, true, false, ◌||◌, ◌&&◌, not, [], ◌∷◌, Option, none, some, Text, ◌=~◌,
  =~_iff, is_empty, arith, ok, has, lookup-insert, lookup-erase, Bool-cases, Option-cases,
}
use juicemud.Dbm.{update}
use juicemud.Dbm.Typed.{Values, eval_values, write_values}
use juicemud.Structs.{Object}
use juicemud.Objects.{
  store_self, add_content, drop_content, enter_location, store_moved, leave_location, is_still,
  store_pairs,
}
use juicemud.Objects.World.{store_values}

pub has-add_content :
    (v : Object) (id x : Text) → has x (add_content v id).content ≡ (id =~ x || has x v.content)
unfolding add_content
has-add_content v id x = ground (arith, lookup-insert x id true v.content)

pub has-drop_content :
    (v : Object) (id x : Text)
    → has x (drop_content v id).content ≡ (not (id =~ x) && has x v.content)
unfolding drop_content
has-drop_content v id x = ground (arith, lookup-erase x id v.content)

pub add_content-location : (v : Object) (id : Text) → (add_content v id).location ≡ v.location
unfolding add_content
add_content-location v id = refl

pub drop_content-location : (v : Object) (id : Text) → (drop_content v id).location ≡ v.location
unfolding drop_content
drop_content-location v id = refl

-- The values after a move, and after a store in place.
abbrev pub moved_values : Values Object → Object → Text → Object → Object → Values Object
moved_values vals object old v w =
    update
      (update (update vals object.id (some object)) object.location
        (some (add_content v object.id)))
      old (some (drop_content w object.id))

abbrev pub stayed_values : Values Object → Object → Object → Values Object
stayed_values vals object v =
    update (update vals object.location (some (add_content v object.id))) object.id (some object)

abbrev at_each : {f g : Values Object} → f ≡ g → (j : Text) → f j ≡ g j
at_each e j = λ i. e i j

empty-eq : (l : Text) → is_empty l ≡ true → l ≡ []
unfolding is_empty
empty-eq [] h = refl
empty-eq (c ∷ l) h = absurd (cc)

module _ (vals : Values Object) (object : Object) (vals' : Values Object) where
  -- A move: the object lay in `old`, and now lies in its location.
  pub record Moved (old : Text) : Type 0 where
    pub u : Object
    pub v : Object
    pub w : Object
    pub at_id : vals object.id ≡ some u
    pub came : u.location ≡ old
    pub at_new : vals object.location ≡ some v
    pub at_old : vals old ≡ some w
    pub listed : has object.id w.content ≡ true
    pub result : (j : Text) → vals' j ≡ moved_values vals object old v w j

  -- What the store had at the id of an object that has not moved.
  abbrev pub WasHere : Type 0
  WasHere =
      (vals object.id ≡ none)
      ⊎ ((u : Object) × (vals object.id ≡ some u) × (u.location ≡ object.location))

  -- A store in place, within a location.
  pub record Stayed : Type 0 where
    pub v : Object
    pub was_here : WasHere
    pub at_loc : vals object.location ≡ some v
    pub result : (j : Text) → vals' j ≡ stayed_values vals object v j

  -- A store in place, of an object that lies nowhere.
  pub record StayedOut : Type 0 where
    pub was_here : WasHere
    pub nowhere : object.location ≡ []
    pub result : (j : Text) → vals' j ≡ update vals object.id (some object) j

  store-Moved :
      (old : Text)
      → is_still (some old) object ≡ false
      → store_values vals (some old) object ≡ ok vals'
      → Moved old
  unfolding store_values store_pairs eval_values write_values store_moved enter_location
      leave_location
  store-Moved old still h = elim (Option-cases (vals object.id)) [
    | inl e ↦ absurd (ground arith)
    | inr (u, e) ↦ elim (Option-cases (vals object.location)) [
      | inl f ↦ absurd (ground arith)
      | inr (v, f) ↦ elim (Option-cases (vals old)) [
        | inl g ↦ absurd (ground arith)
        | inr (w, g) ↦ record {
          u = u;
          v = v;
          w = w;
          at_id = e;
          came = ground (arith, =~_iff u.location old);
          at_new = f;
          at_old = g;
          listed = ground arith;
          result = at_each {f = vals'} {g = moved_values vals object old v w} (ground arith);
        }
      ]
    ]
  ]

  is_still-eq :
      (claimed : Option Text)
      → is_still claimed object ≡ true
      → store_values vals claimed object ≡ store_values vals none object
  unfolding store_values store_pairs
  is_still-eq none still = refl
  is_still-eq (some old) still = rw (still, store_pairs)

  store-StayedOut : object.location ≡ [] → store_values vals none object ≡ ok vals' → StayedOut
  unfolding store_values store_pairs eval_values write_values store_self is_empty
  store-StayedOut out h = elim (Option-cases (vals object.id)) [
    | inl e ↦ record {
      was_here = inl e;
      nowhere = out;
      result = at_each {f = vals'} {g = update vals object.id (some object)} (ground arith);
    }
    | inr (u, e) ↦ record {
      was_here = inr (u, e, ground (arith, =~_iff u.location object.location));
      nowhere = out;
      result = at_each {f = vals'} {g = update vals object.id (some object)} (ground arith);
    }
  ]

  store-Stayed :
      is_empty object.location ≡ false → store_values vals none object ≡ ok vals' → Stayed
  unfolding store_values store_pairs eval_values write_values store_self enter_location
  store-Stayed placed h = elim (Option-cases (vals object.location)) [
    | inl f ↦ absurd (ground arith)
    | inr (v, f) ↦ elim (Option-cases (vals object.id)) [
      | inl e ↦ record {
        v = v;
        was_here = inl e;
        at_loc = f;
        result = at_each {f = vals'} {g = stayed_values vals object v} (ground arith);
      }
      | inr (u, e) ↦ record {
        v = v;
        was_here = inr (u, e, ground (arith, =~_iff u.location object.location));
        at_loc = f;
        result = at_each {f = vals'} {g = stayed_values vals object v} (ground arith);
      }
    ]
  ]

  stay_cases :
      {P : Type 0} → (Stayed → P) → (StayedOut → P) → store_values vals none object ≡ ok vals' → P
  stay_cases stay out h = elim (Bool-cases (is_empty object.location)) [
    | inl nowhere ↦ out (store-StayedOut (empty-eq object.location nowhere) h)
    | inr placed ↦ stay (store-Stayed placed h)
  ]

  -- A store that goes through is one of the three.
  pub store_cases :
      {P : Type 0}
      → ((old : Text) → is_still (some old) object ≡ false → Moved old → P)
      → (Stayed → P)
      → (StayedOut → P)
      → (claimed : Option Text) → store_values vals claimed object ≡ ok vals'
      → P
  store_cases move stay out none h = stay_cases stay out h
  store_cases move stay out (some old) h = elim (Bool-cases (is_still (some old) object)) [
    | inl still ↦ stay_cases stay out (rw (is_still-eq (some old) still) at h)
    | inr moves ↦ move old moves (store-Moved old moves h)
  ]
