-- ===== src/Dav/Timeout.antt =====
-- The Timeout header of a LOCK request, and the strings functions that headers are read with.
use juicemud.Base.{
  ℕ, ◌+◌, ◌-◌, ◌*◌, ◌%◌, ◌^◌, Bool, true, false, ◌&&◌, ◌||◌, List, [], ◌∷◌, Option, none, some,
  Text, ◌=~◌, is_empty, codes, if◌then◌else◌, ltb, leb, ◌==◌, has_prefix, trim_by, split,
}

-- `strings.Contains(t, p)`
unfoldable pub contains : Text → Text → Bool
unfolding has_prefix
contains [] p = has_prefix [] p
contains (c ∷ t) p = has_prefix (c ∷ t) p || contains t p

abbrev is_bracket : ℕ → Bool
is_bracket c = c == b'<' || c == b'>'

-- `strings.Trim(t, "<>")`
pub trim : Text → Text
unfolding trim_by
trim t = trim_by is_bracket t

-- `strings.Split(t, "-")`
pub split_dash : Text → List Text
unfolding split
split_dash t = split b'-' t

-- The digits of `strconv.Atoi` after a sign.
pub digits : ℕ → Text → Option ℕ
digits acc [] = some acc
digits acc (c ∷ t) =
    let rest = digits (acc * 10 + (c - b'0')) t in if leb b'0' c && leb c b'9' then rest else none

abbrev in_range : Option ℕ → Option ℕ
in_range none = none
in_range (some n) = if ltb n (2 ^ 63) then some n else none

-- `strconv.Atoi`, of a text without `-`: an int has 64 bits.
pub atoi : Text → Option ℕ
unfolding digits
atoi [] = none
atoi (c ∷ t) =
    if c == b'+'
    then (if is_empty t then none else in_range (digits 0 t))
    else in_range (digits 0 (c ∷ t))

-- A time.Duration is an int64, by its two's complement.
abbrev pub ten_minutes : ℕ
ten_minutes = 600000000000

abbrev seconds_of : Option ℕ → ℕ
seconds_of none = ten_minutes
seconds_of (some n) = n * 1000000000 % 2 ^ 64

-- parseTimeout
pub parse_timeout : Text → ℕ
unfolding split_dash atoi
parse_timeout header = elim (split_dash header) [
  | [] ↦ ten_minutes
  | p ∷ ps ↦ elim ps [
    | [] ↦ ten_minutes
    | s ∷ more ↦
        if is_empty_list more && p =~ codes "Second" then seconds_of (atoi s) else ten_minutes
  ]
]
  where
    is_empty_list : List Text → Bool
    is_empty_list [] = true
    is_empty_list (q ∷ qs) = false

-- `now.Add(d)`, for times after 1970: a negative duration goes back, at most to the beginning.
abbrev pub add_duration : ℕ → ℕ → ℕ
add_duration now d = if ltb d (2 ^ 63) then now + d else now - (2 ^ 64 - d)
