-- ===== src/Lang.antt =====
-- lang/lang.go: counting and listing things in English. The library that knows plurals is a
-- parameter. Of Go's formatting verbs, `%s` and `%%` are modelled, with what Fprintf prints where the
-- arguments are too few or too many.
pub mod Listing
mod Tests
use juicemud.Base.{
  ℕ, suc, ◌+◌, Bool, true, false, List, [], ◌∷◌, ◌++◌, Option, none, some, Text, is_empty, codes,
  if◌then◌else◌, ltb, ◌==◌, length, decimal,
}

-- What Fprintf says of arguments that no verb asks for, after the first of them.
abbrev extra_args : List Text → Text
extra_args [] = []
extra_args (a ∷ args) = codes ", string=" ++ a ++ extra_args args

abbrev extra : List Text → Text
extra [] = []
extra (a ∷ args) = codes "%!(EXTRA string=" ++ a ++ extra_args args ++ codes ")"

-- A verb, and the argument that it takes: what is printed, and the arguments left.
abbrev verb : ℕ → List Text → Text × List Text
verb v args = if v == b'%' then (b'%' ∷ [], args) else elim args [
  | [] ↦ (codes "%!" ++ v ∷ [] ++ codes "(MISSING)", [])
  | a ∷ rest ↦
      if v == b's'
      then (a, rest)
      else (codes "%!" ++ v ∷ [] ++ codes "(string=" ++ a ++ codes ")", rest)
]

-- `fmt.Sprintf(form, args...)` with strings; the flag tells that the last byte was a `%`.
unfoldable pub sprintf_from : Bool → Text → List Text → Text
sprintf_from true [] args = codes "%!(NOVERB)" ++ extra args
sprintf_from false [] args = extra args
sprintf_from true (v ∷ t) args = let (out, rest) = verb v args in out ++ sprintf_from false t rest
sprintf_from false (c ∷ t) args =
    let after = sprintf_from true t args in
    let plain = sprintf_from false t args in if c == b'%' then after else c ∷ plain

abbrev pub sprintf : Text → List Text → Text
sprintf form args = sprintf_from false form args

-- The type Enumerator; `form` is its Pattern.
pub record Enumerator : Type 0 where
  pub form : Text
  pub separator : Text
  pub operator : Text
  pub active : Bool

abbrev pub or_default : Text → Text → Text
or_default t d = if is_empty t then d else t

-- The loop of Do over the elements from an index on, of `len` in all.
unfoldable pub do_from : Text → Text → Text → ℕ → ℕ → List Text → Text
unfolding sprintf_from
do_from form separator operator idx len [] = []
do_from form separator operator idx len (element ∷ elements) =
    let rest = do_from form separator operator (suc idx) len elements in
    (if ltb (idx + 2) len
      then sprintf (form ++ codes "%s ") (element ∷ separator ∷ [])
      else (if ltb (idx + 1) len
          then sprintf (form ++ codes "%s %s ") (element ∷ separator ∷ operator ∷ [])
          else sprintf form (element ∷ [])))
    ++ rest

-- The verb that agrees with the number of elements.
abbrev pub ending : Bool → ℕ → Text
ending active n =
    if active then (if ltb 1 n then codes " are" else (if ltb 0 n then codes " is" else [])) else []

-- Enumerator.Do
unfoldable pub enumerate : Enumerator → List Text → Text
unfolding do_from
enumerate e elements =
    do_from (or_default e.form (codes "%s")) (or_default e.separator (codes ","))
      (or_default e.operator (codes "and")) 0 (length elements) elements
    ++ ending e.active (length elements)

module _ (singular plural : Text → Text) where
  -- Declare, of a count that is not negative
  pub declare : ℕ → Text → Text
  unfolding decimal
  declare count s =
      if count == 0
      then codes "no " ++ plural s
      else (if count == 1 then codes "1 " ++ singular s else decimal count ++ codes " " ++ plural s)
