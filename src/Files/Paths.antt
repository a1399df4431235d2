-- ===== src/Files/Paths.antt =====
-- What the source uses of Go's path/filepath: Clean, Dir and Base, on slash-separated paths.
use juicemud.Base.{
  ℕ, Bool, true, false, List, [], ◌∷◌, ◌++◌, Text, ◌=~◌, is_empty, ◌==◌, if◌then◌else◌,
}

abbrev slash : ℕ
slash = b'/'

-- The parts between the slashes, the first of them after `part`, which is kept in reverse.
abbrev reverse_onto : Text → Text → Text
reverse_onto [] t = t
reverse_onto (c ∷ cs) t = reverse_onto cs (c ∷ t)

pub parts : Text → Text → List Text
parts part [] = reverse_onto part [] ∷ []
parts part (c ∷ cs) =
    let cut = parts [] cs in
    let go_on = parts (c ∷ part) cs in if c == slash then reverse_onto part [] ∷ cut else go_on

abbrev dot : Text
dot = b'.' ∷ []

abbrev dots : Text
dots = b'.' ∷ b'.' ∷ []

-- `..`: the last part goes, unless there is none or it is itself `..`.
abbrev up : Bool → List Text → List Text
up true [] = []
up false [] = dots ∷ []
up rooted (p ∷ ps) = if p =~ dots then dots ∷ p ∷ ps else ps

-- The parts that Clean keeps, the last one first.
pub keep_parts : Bool → List Text → List Text → List Text
keep_parts rooted kept [] = kept
keep_parts rooted kept (p ∷ ps) =
    keep_parts rooted
      (if is_empty p
        then kept
        else if p =~ dot
        then kept
        else if p =~ dots
        then up rooted kept
        else p ∷ kept)
      ps

-- The parts, the last one first, with a slash between each two.
abbrev join_onto : List Text → Text → Text
join_onto [] t = t
join_onto (p ∷ []) t = p ++ t
join_onto (p ∷ q ∷ ps) t = join_onto (q ∷ ps) (slash ∷ p ++ t)

abbrev is_rooted : Text → Bool
is_rooted [] = false
is_rooted (c ∷ cs) = c == slash

-- filepath.Clean
pub clean : Text → Text
unfolding keep_parts parts
clean path =
    let rooted = is_rooted path in
    let kept = join_onto (keep_parts rooted [] (parts [] path)) [] in
    if rooted then slash ∷ kept else if is_empty kept then dot else kept

-- The path up to its last slash, that included, and what follows.
abbrev front : Text → Text
front [] = []
front (c ∷ cs) =
    let rest = front cs in if is_empty rest then (if c == slash then c ∷ [] else []) else c ∷ rest

abbrev drop_slashes : Text → Text
drop_slashes [] = []
drop_slashes (c ∷ cs) =
    let rest = drop_slashes cs in
    if is_empty rest then (if c == slash then [] else c ∷ []) else c ∷ rest

abbrev last_part : List Text → Text
last_part [] = []
last_part (p ∷ []) = p
last_part (p ∷ q ∷ ps) = last_part (q ∷ ps)

-- filepath.Dir
pub dir : Text → Text
unfolding clean
dir path = clean (front path)

-- filepath.Base
pub base : Text → Text
unfolding parts
base path =
    let bare = drop_slashes path in
    if is_empty path then dot else if is_empty bare then slash ∷ [] else last_part (parts [] bare)
