-- ===== src/Fs/Pathify.antt =====
-- fs/fs.go: pathify, which brings a path into the form that the storage keeps paths in.
use juicemud.Base.{
  ℕ, ◌≡◌, refl, sym, ap, ◌∙◌, inl, inr, Bool, true, false, [], ◌∷◌, ◌++◌, Text, is_empty, ◌==◌,
  if◌then◌else◌, arith, Bool-cases,
}

-- `strings.HasSuffix(s, "/")`
unfoldable pub ends_in_slash : Text → Bool
ends_in_slash [] = false
ends_in_slash (c ∷ s) = if is_empty s then c == b'/' else ends_in_slash s

-- `s[:len(s)-1]`
abbrev pub drop_last : Text → Text
drop_last [] = []
drop_last (c ∷ s) = let rest = drop_last s in if is_empty s then [] else c ∷ rest

-- `strings.HasPrefix(s, "/")`
abbrev pub starts_with_slash : Text → Bool
starts_with_slash [] = false
starts_with_slash (c ∷ s) = c == b'/'

-- pathify
unfoldable pub pathify : Text → Text
unfolding ends_in_slash
pathify s =
    let bare = if ends_in_slash s then drop_last s else s in
    if starts_with_slash bare then bare else b'/' ∷ bare

drop_last-snoc : (s : Text) (c : ℕ) → drop_last (s ++ c ∷ []) ≡ s
unfolding is_empty
drop_last-snoc [] c = refl
drop_last-snoc (x ∷ []) c = refl
drop_last-snoc (x ∷ y ∷ s) c = ground (arith, drop_last-snoc (y ∷ s) c)

ends_in_slash-snoc : (s : Text) → ends_in_slash (s ++ b'/' ∷ []) ≡ true
unfolding ends_in_slash is_empty
ends_in_slash-snoc [] = refl
ends_in_slash-snoc (x ∷ []) = refl
ends_in_slash-snoc (x ∷ y ∷ s) = ends_in_slash-snoc (y ∷ s)

pathify-slash : (s : Text) → ends_in_slash s ≡ false → pathify (b'/' ∷ s) ≡ b'/' ∷ s
unfolding pathify ends_in_slash is_empty
pathify-slash [] bare = refl
pathify-slash (c ∷ s) bare = rw bare refl

pathify-twice : (s : Text) → ends_in_slash s ≡ false → pathify (pathify s) ≡ pathify s
unfolding pathify
pathify-twice s bare = elim (Bool-cases (starts_with_slash s)) [
  | inl there ↦ ap pathify (rw (bare, there) refl)
  | inr missing ↦
      let e : pathify s ≡ b'/' ∷ s = rw (bare, missing) refl in
      ap pathify e ∙ pathify-slash s bare ∙ sym e
]

-- For a path that does not end in a slash, pathify gives a path that starts with one, the same for the
-- path with a slash at its end, and the same again if it is applied again.
pub pathify-rooted :
    (s : Text)
    → ends_in_slash s ≡ false
    → (starts_with_slash (pathify s) ≡ true)
      × (pathify (s ++ b'/' ∷ []) ≡ pathify s)
      × (pathify (pathify s) ≡ pathify s)
unfolding pathify
pathify-rooted s bare =
    (ground arith, rw (ends_in_slash-snoc s, drop_last-snoc s, bare) refl, pathify-twice s bare)
