-- ===== src/Base/Split.antt =====
-- The string functions of Go that headers, commands and messages are read and written with. Letters
-- and blanks are those of ASCII.
use Prim.Native.Nat.{ℕ, zero, suc, ◌+◌, ◌/◌, ◌%◌}
use mathlib.Core.Bool.{Bool, true, false, ◌&&◌, ◌||◌}
use mathlib.Core.Option.{Option, none, some}
use mathlib.Core.List.{List, [], ◌∷◌, ◌++◌}
use juicemud.Base.Tests.{◌==◌, ltb, leb, if◌then◌else◌}
use juicemud.Base.Strings.{Text, is_empty}

-- `strings.HasPrefix(t, p)`
unfoldable pub has_prefix : Text → Text → Bool
has_prefix t [] = true
has_prefix [] (d ∷ p) = false
has_prefix (c ∷ t) (d ∷ p) = c == d && has_prefix t p

-- `strings.TrimPrefix(t, p)`
unfoldable pub trim_prefix : Text → Text → Text
unfolding has_prefix
trim_prefix t p = if has_prefix t p then drop_as t p else t
  where
    drop_as : Text → Text → Text
    drop_as t [] = t
    drop_as [] (d ∷ p) = []
    drop_as (c ∷ t) (d ∷ p) = drop_as t p

-- The first part of a text, and the parts after it.
unfoldable pub parts : ℕ → Text → Text × List Text
parts sep [] = ([], [])
parts sep (c ∷ t) = let (p, ps) = parts sep t in if c == sep then ([], p ∷ ps) else (c ∷ p, ps)

-- `strings.Split(t, sep)` at a separator of one byte
unfoldable pub split : ℕ → Text → List Text
unfolding parts
split sep t = let (p, ps) = parts sep t in p ∷ ps

-- `strings.SplitN(t, sep, 2)`, if it gives two parts
unfoldable pub cut : ℕ → Text → Option (Text × Text)
cut sep [] = none
cut sep (c ∷ t) =
    let rest : Option (Text × Text) = elim (cut sep t) [
      | none ↦ none
      | some p ↦ some (c ∷ p.0, p.1)
    ] in
    if c == sep then some ([], t) else rest

module _ (p : ℕ → Bool) where
  unfoldable pub trim_left : Text → Text
  trim_left [] = []
  trim_left (c ∷ t) = let rest = trim_left t in if p c then rest else c ∷ t

  unfoldable pub trim_right : Text → Text
  trim_right [] = []
  trim_right (c ∷ t) = let rest = trim_right t in if is_empty rest && p c then [] else c ∷ rest

  -- `strings.TrimFunc(t, p)`
  unfoldable pub trim_by : Text → Text
  unfolding trim_left trim_right
  trim_by t = trim_right (trim_left t)

-- `unicode.IsSpace`
abbrev pub is_space : ℕ → Bool
is_space c = (leb 9 c && leb c 13) || c == 32

-- A letter in lower case.
abbrev pub lower : ℕ → ℕ
lower c = if leb b'A' c && leb c b'Z' then c + 32 else c

-- `strings.ToLower(t)`
unfoldable pub to_lower : Text → Text
to_lower [] = []
to_lower (c ∷ t) = lower c ∷ to_lower t

abbrev pub decimal_on : ℕ → ℕ → Text
decimal_on zero n = []
decimal_on (suc fuel) n =
    let high = decimal_on fuel (n / 10) in
    let digit : Text = (n % 10 + b'0') ∷ [] in if ltb n 10 then digit else high ++ digit

-- A number in decimal, as `%d` and `%v` print it; it has no more digits than its value and one.
unfoldable pub decimal : ℕ → Text
decimal n = decimal_on (suc n) n
