-- ===== src/Digest/Header.antt =====
-- Reading the header Authorization gives back the fields that a client wrote into it.
use juicemud.Base.{
  ℕ, ◌≡◌, refl, ap, Bool, true, false, ◌&&◌, not, List, [], ◌∷◌, ◌++◌, some, Text, codes, ◌∙◌,
  Assoc, insert, has_prefix, trim_prefix, split, parts, cut, trim_by, trim_left, trim_right,
  is_space, to_lower, ◌==◌, leb, arith, is_empty, sym,
}
use mathlib.Core.Path.{◌≡⟨◌⟩◌, ◌∎}
use mathlib.Core.List.{append_assoc}
use juicemud.Digest.{add_pair, add_part, add_parts, parse_digest_header, hex}

-- All bytes of the text pass the test.
unfoldable pub all : (ℕ → Bool) → Text → Bool
all p [] = true
all p (c ∷ t) = p c && all p t

-- The bytes that a client writes in the name of a field: no comma, no equals sign, no blank and no
-- capital; and in its value: no comma and no quote.
abbrev pub in_key : ℕ → Bool
in_key c = not (c == b',') && not (c == b'=') && not (is_space c) && not (leb b'A' c && leb c b'Z')

abbrev pub in_value : ℕ → Bool
in_value c = not (c == b',') && not (c == b'"')

abbrev pub AllPlain : List (Text × Text) → Type 0
AllPlain [] = Unit
AllPlain ((k, v) ∷ fs) = (all in_key k ≡ true) × (all in_value v ≡ true) × AllPlain fs

-- A field as a client writes it: its name, and its value in quotes.
abbrev pub field : Text → Text → Text
field k v = k ++ b'=' ∷ b'"' ∷ (v ++ b'"' ∷ [])

-- Fields with a comma and a blank between each two of them.
unfoldable pub fields : Text × Text → List (Text × Text) → Text
fields f [] = field (f.0) (f.1)
fields f (g ∷ fs) = field (f.0) (f.1) ++ b',' ∷ b' ' ∷ fields g fs

unfoldable pub insert_all : List (Text × Text) → Assoc Text → Assoc Text
insert_all [] m = m
insert_all (f ∷ fs) m = insert_all fs (insert (f.0) (f.1) m)

-- No comma.
abbrev joined : ℕ → Bool
joined c = not (c == b',')

all-append : (p : ℕ → Bool) (s t : Text) → all p s ≡ true → all p t ≡ true → all p (s ++ t) ≡ true
unfolding all
all-append p [] t hs ht = ht
all-append p (c ∷ s) t hs ht = ground (arith, all-append p s t)

all-joined_key : (k : Text) → all in_key k ≡ true → all joined k ≡ true
unfolding all
all-joined_key [] h = refl
all-joined_key (c ∷ k) h = ground (arith, all-joined_key k)

all-joined_value : (k : Text) → all in_value k ≡ true → all joined k ≡ true
unfolding all
all-joined_value [] h = refl
all-joined_value (c ∷ k) h = ground (arith, all-joined_value k)

parts-append :
    (a b : Text)
    → all joined a ≡ true
    → parts b',' (a ++ b',' ∷ b) ≡ (a, (parts b',' b).0 ∷ (parts b',' b).1)
unfolding parts all
parts-append [] b h = refl
parts-append (c ∷ a) b h = ground (arith, parts-append a b)

parts-one : (a : Text) → all joined a ≡ true → parts b',' a ≡ (a, [])
unfolding parts all
parts-one [] h = refl
parts-one (c ∷ a) h = ground (arith, parts-one a)

cut-key : (k r : Text) → all in_key k ≡ true → cut b'=' (k ++ b'=' ∷ r) ≡ some (k, r)
unfolding cut all
cut-key [] r h = refl
cut-key (c ∷ k) r h = ground (arith, cut-key k r)

to_lower-key : (k : Text) → all in_key k ≡ true → to_lower k ≡ k
unfolding to_lower all
to_lower-key [] h = refl
to_lower-key (c ∷ k) h = ground (arith, to_lower-key k)

is_empty-append : (t : Text) (c : ℕ) → is_empty (t ++ c ∷ []) ≡ false
unfolding is_empty
is_empty-append [] c = ground arith
is_empty-append (d ∷ t) c = ground arith

trim_right-append :
    (p : ℕ → Bool) (t : Text) (c : ℕ) → p c ≡ false → trim_right p (t ++ c ∷ []) ≡ t ++ c ∷ []
unfolding trim_right is_empty
trim_right-append p [] c h = rw h refl
trim_right-append p (d ∷ t) c h = ground (arith, trim_right-append p t c h, is_empty-append t c)

key-head : (c : ℕ) (k : Text) → all in_key (c ∷ k) ≡ true → is_space c ≡ false
unfolding all
key-head c k h = ground arith

trim_left-head : (c : ℕ) (t : Text) → is_space c ≡ false → trim_left is_space (c ∷ t) ≡ c ∷ t
unfolding trim_left
trim_left-head c t h = rw h refl

trim_left-key :
    (k t : Text) → all in_key k ≡ true → trim_left is_space (k ++ b'=' ∷ t) ≡ k ++ b'=' ∷ t
trim_left-key [] t h = trim_left-head b'=' t refl
trim_left-key (c ∷ k) t h = trim_left-head c (k ++ b'=' ∷ t) (key-head c k h)

-- Blanks before and after a field are cut off, and no more.
trim-field : (k v : Text) → all in_key k ≡ true → trim_by is_space (field k v) ≡ field k v
unfolding trim_by
trim-field k v h =
    trim_right is_space (trim_left is_space (field k v))
    ≡⟨ ap (trim_right is_space) (trim_left-key k (b'"' ∷ (v ++ b'"' ∷ [])) h) ⟩
      trim_right is_space (field k v)
    ≡⟨ ap (trim_right is_space) (sym shift) ⟩
      trim_right is_space ((k ++ b'=' ∷ b'"' ∷ v) ++ b'"' ∷ [])
    ≡⟨ trim_right-append is_space (k ++ b'=' ∷ b'"' ∷ v) b'"' refl ⟩
      (k ++ b'=' ∷ b'"' ∷ v) ++ b'"' ∷ []
    ≡⟨ shift ⟩ field k v ∎
  where
    shift : (k ++ b'=' ∷ b'"' ∷ v) ++ b'"' ∷ [] ≡ field k v
    shift = append_assoc k (b'=' ∷ b'"' ∷ v) (b'"' ∷ [])

quoted : (v : Text) → all in_value v ≡ true → trim_right (λ c. c == b'"') (v ++ b'"' ∷ []) ≡ v
unfolding trim_right all is_empty
quoted [] h = refl
quoted (c ∷ v) h = ground (arith, quoted v)

value-head : (c : ℕ) (v : Text) → all in_value (c ∷ v) ≡ true → (c == b'"') ≡ false
unfolding all
value-head c v h = ground arith

trim-quotes :
    (v : Text) → all in_value v ≡ true → trim_by (λ c. c == b'"') (b'"' ∷ (v ++ b'"' ∷ [])) ≡ v
unfolding trim_by trim_left all
trim-quotes [] h = refl
trim-quotes (c ∷ v) h = rw (value-head c v h) (quoted (c ∷ v) h)

-- One field, with or without a blank before it.
add_part-field :
    (k v : Text) (m : Assoc Text)
    → all in_key k ≡ true
    → all in_value v ≡ true
    → add_part (field k v) m ≡ insert k v m
unfolding add_part
add_part-field k v m hk hv =
    ap (λ o. add_pair o m)
      (ap (cut b'=') (trim-field k v hk) ∙ cut-key k (b'"' ∷ (v ++ b'"' ∷ [])) hk)
    ∙ ap (λ j. insert j (trim_by (λ c. c == b'"') (b'"' ∷ (v ++ b'"' ∷ []))) m) (to_lower-key k hk)
    ∙ ap (λ w. insert k w m) (trim-quotes v hv)

field-joined :
    (k v : Text) → all in_key k ≡ true → all in_value v ≡ true → all joined (field k v) ≡ true
unfolding all
field-joined k v hk hv =
    all-append joined k _ (all-joined_key k hk) (all-append joined v _ (all-joined_value v hv) refl)

-- The parts of what a client writes are the fields, and the reading of them adds each.
add_parts-fields :
    (f : Text × Text) (fs : List (Text × Text)) (m : Assoc Text)
    → AllPlain (f ∷ fs)
    → add_parts (split b',' (fields f fs)) m ≡ insert_all (f ∷ fs) m
unfolding add_parts fields insert_all split trim_by
add_parts-fields (k, v) [] m (hk, hv, _) =
    ap (λ r. add_parts ((r).0 ∷ (r).1) m) (parts-one (field k v) (field-joined k v hk hv))
    ∙ add_part-field k v m hk hv
add_parts-fields (k, v) (g ∷ fs) m (hk, hv, h) =
    ap (λ r. add_parts ((r).0 ∷ (r).1) m)
      (parts-append (field k v) (b' ' ∷ fields g fs) (field-joined k v hk hv))
    ∙ ap (add_parts (split b',' (b' ' ∷ fields g fs))) (add_part-field k v m hk hv)
    ∙ add_parts-fields g fs (insert k v m) h

-- A header that a client writes from fields with plain names and values is read back by
-- parseDigestHeader as exactly these fields.
pub parse_digest_header-fields :
    (f : Text × Text) (fs : List (Text × Text))
    → AllPlain (f ∷ fs)
    → parse_digest_header (codes "Digest " ++ fields f fs) ≡ insert_all (f ∷ fs) []
unfolding parse_digest_header trim_prefix has_prefix
parse_digest_header-fields f fs h = add_parts-fields f fs [] h

-- A hash in hexadecimal has no comma and no quote.
pub hex-all : (bs : List ℕ) → all in_value (hex bs) ≡ true
unfolding hex all
hex-all [] = refl
hex-all (b ∷ bs) = ground (arith, hex-all bs)
