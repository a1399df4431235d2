-- ===== src/Structs.antt =====
-- structs/schema.go (the structs), structs/structs.go and structs/utils.go: the game's objects and
-- what is read off them. A float32 is its bit pattern, a number that the models only pass on.
pub mod Detection
pub mod Encoding
pub mod Keys
mod Tests
use juicemud.Base.{
  ℕ, ◌≡◌, Bool, true, false, List, [], ◌∷◌, ◌++◌, Option, none, some, Text, if◌then◌else◌, Assoc,
  lookup, has, codes,
}

abbrev pub Float32 : Type 0
Float32 = ℕ

pub record Skill : Type 0 where
  pub theoretical : Float32
  pub practical : Float32

pub record Challenge : Type 0 where
  pub skill : Text
  pub level : Float32
  pub message : Text

pub record Description : Type 0 where
  pub short : Text
  pub long : Text
  pub tags : List Text
  pub challenges : List Challenge

pub record Exit : Type 0 where
  pub descriptions : List Description
  pub use_challenges : List Challenge
  pub transmit_challenges : Assoc (List Challenge)
  pub tags : List Text
  pub destination : Text

pub record Object : Type 0 where
  pub id : Text
  pub callbacks : Assoc (Assoc Bool)
  pub state : Text
  pub location : Text
  pub content : Assoc Bool
  pub skills : Assoc Skill
  pub descriptions : List Description
  pub exits : List Exit
  pub source_path : Text
  pub source_mod_time : ℕ

pub record Call : Type 0 where
  pub name : Text
  pub message : Text
  pub tag : Text

pub record Event : Type 0 where
  pub at : ℕ
  pub object : Text
  pub call : Call
  pub key : Text

-- Object.HasCallback
unfoldable pub has_callback : Object → Text → Text → Bool
has_callback o name tag = elim (lookup name o.callbacks) [ none ↦ false | some tags ↦ has tag tags ]

-- MakeObject, with the id that NextObjectID gave: the zero value, with maps and that id.
unfoldable pub make_object : Text → Object
make_object new_id = record {
  id = new_id;
  callbacks = [];
  state = [];
  location = [];
  content = [];
  skills = [];
  descriptions = [];
  exits = [];
  source_path = [];
  source_mod_time = 0;
}

pub record Location : Type 0 where
  pub container : Object
  pub content : Assoc Object

pub record Neighbourhood : Type 0 where
  pub self : Location
  pub location : Location
  pub neighbours : Assoc Location

-- Location.All: what the iterator yields when the loop runs to its end.
pub location_all : Location → List (Text × Object)
location_all l = (l.container.id, l.container) ∷ l.content

-- The second loop of Neighbourhood.All.
pub neighbours_all : Assoc Location → List (Text × Object)
neighbours_all [] = []
neighbours_all ((k, l) ∷ ls) = location_all l ++ neighbours_all ls

-- Neighbourhood.All
pub neighbourhood_all : Neighbourhood → List (Text × Object)
unfolding neighbours_all location_all
neighbourhood_all n = location_all n.location ++ neighbours_all n.neighbours

-- Exits.Short before it is joined: the first description of each exit that has one.
pub exit_shorts : List Exit → List Text
exit_shorts [] = []
exit_shorts (e ∷ es) = elim e.descriptions [
  | [] ↦ exit_shorts es
  | d ∷ ds ↦ d.short ∷ exit_shorts es
]

-- `strings.Join`
pub join : Text → List Text → Text
join sep [] = []
join sep (t ∷ ts) = let rest = join sep ts in elim ts [ [] ↦ t | u ∷ us ↦ t ++ (sep ++ rest) ]

-- Exits.Short
pub exits_short : List Exit → Text
unfolding exit_shorts join
exits_short es = join (codes ", ") (exit_shorts es)

-- Objects.Short: an object without a description is an index out of range.
pub objects_short : List Object → Option (List Text)
objects_short [] = some []
objects_short (o ∷ os) =
    let rest = objects_short os in
    elim o.descriptions [
      | [] ↦ none
      | d ∷ ds ↦ elim rest [ none ↦ none | some ts ↦ some (d.short ∷ ts) ]
    ]
