-- ===== src/Structs/Keys.antt =====
-- Event.CreateKey and the object ids of NextObjectID: big-endian bytes of encoding/binary.
use native.Mathlib.Nat.{pow-suc}
use juicemud.Base.{
  ℕ, zero, suc, ◌+◌, ◌*◌, ◌/◌, ◌%◌, ◌^◌, ◌<◌, ◌≤◌, ◌≡◌, refl, ap, ◌∙◌, Bool, true, false, ◌&&◌, [],
  ◌∷◌, ◌++◌, Option, none, some, Text, if◌then◌else◌, ltb, ◌==◌, arith, length, length-append,
}
use juicemud.Structs.{Event}

-- `binary.BigEndian.PutUint64`, for any number of bytes
unfoldable pub put_uint : ℕ → ℕ → Text
put_uint zero n = []
put_uint (suc k) n = put_uint k (n / 256) ++ (n % 256) ∷ []

-- `binary.BigEndian.Uint64`: a slice that is too short is an index out of range.
pub get_uint : ℕ → Text → ℕ → Option ℕ
get_uint zero b acc = some acc
get_uint (suc k) [] acc = none
get_uint (suc k) (c ∷ b) acc = get_uint k b (acc * 256 + c)

abbrev pub put_uint64 : ℕ → Text
put_uint64 = put_uint 8

abbrev pub get_uint64 : Text → Option ℕ
get_uint64 b = get_uint 8 b 0

-- Event.CreateKey, with the number that Increment gave
unfoldable pub create_key : Event → ℕ → Event
create_key e event_counter = record e { key = put_uint64 e.at ++ put_uint64 event_counter }

-- The order of strings: byte by byte.
unfoldable pub lex_lt : Text → Text → Bool
lex_lt [] [] = false
lex_lt [] (d ∷ t) = true
lex_lt (c ∷ s) [] = false
lex_lt (c ∷ s) (d ∷ t) = if ltb c d then true else c == d && lex_lt s t

-- The order of numbers of 64 bits, read as signed ones.
unfoldable pub signed_lt : ℕ → ℕ → Bool
signed_lt a b = ltb ((a + 2 ^ 63) % 2 ^ 64) ((b + 2 ^ 63) % 2 ^ 64)

abbrev pub eights_lt : Option ℕ → Option ℕ → Bool
eights_lt none b = false
eights_lt (some a) none = false
eights_lt (some a) (some b) = signed_lt a b

-- What the comparator of the tree, SignedBigEndianKeyComparator, goes by: the first eight bytes of a
-- key as a signed number. What it makes of further bytes is left open.
unfoldable pub key_lt : Text → Text → Bool
key_lt k l = eights_lt (get_uint64 k) (get_uint64 l)

length-put_uint : (k n : ℕ) → length (put_uint k n) ≡ k
unfolding put_uint
length-put_uint zero n = refl
length-put_uint (suc k) n =
    omega
      (arith, length-append (put_uint k (n / 256)) ((n % 256) ∷ []), length-put_uint k (n / 256))

bound-div : (k n : ℕ) → n < 256 ^ suc k → n / 256 < 256 ^ k
bound-div k n h = let e = pow-suc 256 k in omega arith

get_uint-snoc :
    (k : ℕ) (b : Text) (c acc v : ℕ)
    → get_uint k b acc ≡ some v
    → length b ≡ k
    → get_uint (suc k) (b ++ c ∷ []) acc ≡ some (v * 256 + c)
unfolding get_uint
get_uint-snoc zero [] c acc v h n = ground arith
get_uint-snoc zero (x ∷ b) c acc v h n = absurd (omega arith)
get_uint-snoc (suc k) [] c acc v h n = absurd (omega arith)
get_uint-snoc (suc k) (x ∷ b) c acc v h n = get_uint-snoc k b c (acc * 256 + x) v h (omega arith)

get_uint-put_uint : (k n : ℕ) → n < 256 ^ k → get_uint k (put_uint k n) 0 ≡ some n
unfolding put_uint get_uint
get_uint-put_uint zero n h = ground arith
get_uint-put_uint (suc k) n h =
    get_uint-snoc k (put_uint k (n / 256)) (n % 256) 0 (n / 256)
      (get_uint-put_uint k (n / 256) (bound-div k n h)) (length-put_uint k (n / 256))
    ∙ ap some (omega arith)

-- A number below 2 ^ 64 is read back from its eight bytes.
get_uint64-put_uint64 : (n : ℕ) → n < 2 ^ 64 → get_uint64 (put_uint64 n) ≡ some n
get_uint64-put_uint64 n h = get_uint-put_uint 8 n (omega arith)

get_uint-append :
    (k : ℕ) (b t : Text) (acc v : ℕ) → get_uint k b acc ≡ some v → get_uint k (b ++ t) acc ≡ some v
unfolding get_uint
get_uint-append zero b t acc v h = h
get_uint-append (suc k) [] t acc v h = absurd (cc)
get_uint-append (suc k) (c ∷ b) t acc v h = get_uint-append k b t (acc * 256 + c) v h

-- The tree has the keys of events in the order of their times, as signed numbers.
pub key_lt-create_key :
    (d e : Event) (m n : ℕ)
    → d.at < 2 ^ 64
    → e.at < 2 ^ 64
    → key_lt (create_key d m).key (create_key e n).key ≡ signed_lt d.at e.at
unfolding create_key key_lt
key_lt-create_key d e m n hd he = rw (
  get_uint-append 8 (put_uint64 d.at) (put_uint64 m) 0 d.at (get_uint64-put_uint64 d.at hd),
  get_uint-append 8 (put_uint64 e.at) (put_uint64 n) 0 e.at (get_uint64-put_uint64 e.at he),
)

-- Of times below 2 ^ 63, that is their order.
pub signed_lt-le : (a b : ℕ) → a < 2 ^ 63 → b < 2 ^ 63 → signed_lt b a ≡ false → a ≤ b
unfolding signed_lt
signed_lt-le a b ha hb h = ground arith
