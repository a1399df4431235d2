-- ===== src/Js.antt =====
-- js/js.go: a script of an object, run on a machine of V8. V8 is the parameter V8: its values and
-- functions, and a script as the calls that it makes of Go's functions, each with what it does with
-- the reply, to its end. A script that is stopped for its time is one that ends with an error; what
-- is left of the time is not modelled.
pub mod Registry
pub mod Running
pub mod Effects
mod Tests
use juicemud.Base.{
  ℕ, Bool, true, false, ◌&&◌, not, List, [], ◌∷◌, ◌++◌, Option, none, some, Text, ◌=~◌, is_empty,
  codes, if◌then◌else◌, Error, Result, ok, err, ◌>>=◌, Assoc, lookup, insert, erase,
}
use juicemud.Structs.{Call}

-- What a function of Go returns to the script: a value, `undefined` for nil, or an exception.
pub data Reply (V : Type 0) : Type 0 where
  returned : Option V → Reply V
  thrown : Text → Reply V

-- A script from where it is: it ends, with the machine as it leaves it, or calls a function of Go.
pub data Script (M V : Type 0) : Type 0 where
  ends : M → Result V → Script M V
  calls : Text → List V → (Reply V → Script M V) → Script M V

pub record V8 : Type 1 where
  pub Machine : Type 0
  pub Value : Type 0
  pub Function : Type 0
  pub is_string : Value → Bool
  pub is_array : Value → Bool
  pub is_object : Value → Bool
  pub is_function : Value → Bool
  pub is_null : Value → Bool
  pub string : Value → Text
  pub integer : Value → ℕ
  pub as_function : Value → Result Function
  pub json_parse : Machine → Text → Result Value
  pub json_stringify : Machine → Value → Result Text
  -- The globals: `bind` makes a function of Go one.
  pub bind : Machine → Text → Result Machine
  pub set_global : Machine → Text → Value → Result Machine
  pub get_global : Machine → Text → Result Value
  pub run_script : Machine → Text → Text → Script Machine Value
  pub call_function : Machine → Function → Option Value → Script Machine Value
  -- goccy.Unmarshal of an array of strings
  pub unmarshal_tags : Text → Result (List Text)

-- The type Result
pub record RunResult : Type 0 where
  pub state : Text
  pub callbacks : Assoc (Assoc Bool)
  pub value : Text

module _ (v : V8) where
  open v use {Machine, Value, Function}

  -- A function of Go that a script may call, over what it reads and changes; `none` means that a
  -- bound on recursion ran out.
  abbrev pub Host : Type 0 → Type 0
  Host W = List Value → W → Option (W × Reply Value)

  -- The type Target, without its callbacks; the console is what logFunc writes to.
  pub record Target : Type 0 where
    pub source : Text
    pub origin : Text
    pub state : Text

  -- What addCallback and removeCallback change in a RunContext.
  pub record RunContext : Type 0 where
    pub callbacks : Assoc (Assoc Bool)
    pub functions : Assoc Function

  unfoldable pub add_tags : List Text → Assoc Bool → Assoc Bool
  add_tags [] m = m
  add_tags (tag ∷ tags) m = add_tags tags (insert tag true m)

  -- The tags of a callback: the empty one, if none is given.
  unfoldable pub tags_of : List Text → Assoc Bool
  unfolding add_tags
  tags_of [] = insert [] true []
  tags_of (tag ∷ tags) = add_tags (tag ∷ tags) []

  abbrev pub usage : Text
  usage = codes "addCallback takes [string, []string, function] arguments"

  -- The middle of addJSCallback
  abbrev pub register :
      Text → Result (List Text) → Result Function → RunContext → RunContext × Reply Value
  register event_type (err e) f r = (r, thrown (codes "trying to copy"))
  register event_type (ok tags) (err e) r = (r, thrown (codes "trying to cast"))
  register event_type (ok tags) (ok f) r = (
    record {
      callbacks = insert event_type (tags_of tags) r.callbacks;
      functions = insert event_type f r.functions;
    },
    returned none,
  )

  -- addJSCallback
  unfoldable pub add_js_callback : Machine → List Value → RunContext → RunContext × Reply Value
  unfolding tags_of
  add_js_callback m (a ∷ b ∷ c ∷ []) r =
      if v.is_string a && v.is_array b && v.is_function c
      then register (v.string a) (v.json_stringify m b >>= v.unmarshal_tags) (v.as_function c) r
      else (r, thrown usage)
  add_js_callback m args r = (r, thrown usage)

  -- removeJSCallback
  unfoldable pub remove_js_callback : List Value → RunContext → RunContext × Reply Value
  remove_js_callback (a ∷ []) r =
      if v.is_string a
      then (
        record {
          callbacks = erase (v.string a) r.callbacks;
          functions = erase (v.string a) r.functions;
        },
        returned none,
      )
      else (r, thrown (codes "removeCallback takes [string] arguments"))
  remove_js_callback args r = (r, thrown (codes "removeCallback takes [string] arguments"))
