-- ===== src/Lang/Listing.antt =====
-- What Enumerator.Do prints, without its forms and indices.
use mathlib.Core.Path.{ap₂}
use mathlib.Core.List.{append_assoc, append-nil}
use juicemud.Base.{
  ℕ, suc, ◌+◌, ◌≡◌, refl, sym, ap, ◌∙◌, Bool, true, false, ◌&&◌, not, List, [], ◌∷◌, ◌++◌, Text,
  is_empty, codes, ltb, ◌==◌, length, arith,
}
use juicemud.Lang.{or_default, sprintf, sprintf_from, do_from, ending, enumerate}

-- No byte of the text is a `%`.
unfoldable pub has_no_verb : Text → Bool
has_no_verb [] = true
has_no_verb (c ∷ t) = not (c == b'%') && has_no_verb t

-- The elements in a row: each but the last is followed by the separator, and the last of several
-- has the operator before it.
unfoldable pub listed : Text → Text → List Text → Text
listed separator operator [] = []
listed separator operator (x ∷ xs) =
    let rest = listed separator operator xs in
    elim xs [
      | [] ↦ x
      | y ∷ ys ↦ elim ys [
        | [] ↦ x ++ (separator ++ (b' ' ∷ (operator ++ (b' ' ∷ rest))))
        | z ∷ zs ↦ x ++ (separator ++ (b' ' ∷ rest))
      ]
    ]

-- A text, or what stands for it where it is empty.
abbrev pub given : Text → Text → Text
given [] d = d
given (c ∷ t) d = c ∷ t

-- The verb, if it is asked for: none, that of one element, or that of several.
abbrev pub agreeing : Bool → List Text → Text
agreeing false xs = []
agreeing true [] = []
agreeing true (x ∷ []) = codes " is"
agreeing true (x ∷ y ∷ xs) = codes " are"

defaulted : (t d : Text) → or_default t d ≡ given t d
unfolding is_empty
defaulted [] d = refl
defaulted (c ∷ t) d = refl

ending-agreeing : (active : Bool) (xs : List Text) → ending active (length xs) ≡ agreeing active xs
ending-agreeing false xs = refl
ending-agreeing true [] = refl
ending-agreeing true (x ∷ []) = refl
ending-agreeing true (x ∷ y ∷ xs) = ground arith

-- Each element between what the pattern has before and after its verb.
abbrev pub dressed : Text → Text → List Text → List Text
dressed before after [] = []
dressed before after (x ∷ xs) = (before ++ (x ++ after)) ∷ dressed before after xs

sprintf-plain :
    (t form : Text) (args : List Text)
    → has_no_verb t ≡ true
    → sprintf (t ++ form) args ≡ t ++ sprintf form args
unfolding sprintf_from has_no_verb
sprintf-plain [] form args h = refl
sprintf-plain (c ∷ t) form args h = ground (arith, sprintf-plain t form args)

shift_one :
    (a b c d rest : Text)
    → (a ++ (b ++ (c ++ (d ++ b' ' ∷ [])))) ++ rest ≡ (a ++ (b ++ c)) ++ (d ++ (b' ' ∷ rest))
shift_one a b c d rest = simp append_assoc

shift_two :
    (a b c d o rest : Text)
    → (a ++ (b ++ (c ++ (d ++ (b' ' ∷ (o ++ b' ' ∷ [])))))) ++ rest
      ≡ (a ++ (b ++ c)) ++ (d ++ (b' ' ∷ (o ++ (b' ' ∷ rest))))
shift_two a b c d o rest = simp append_assoc

module _ (before after separator operator : Text) where
  -- The pattern: one `%s`, and no other verb.
  abbrev form : Text
  form = before ++ (codes "%s" ++ after)

  sprintf-element :
      (x : Text) (more : Text) (args : List Text)
      → has_no_verb before ≡ true
      → has_no_verb after ≡ true
      → sprintf (form ++ more) (x ∷ args) ≡ before ++ (x ++ (after ++ sprintf more args))
  unfolding sprintf_from
  sprintf-element x more args hb ha =
      ap (λ f. sprintf f (x ∷ args)) (append_assoc before (codes "%s" ++ after) more)
      ∙ sprintf-plain before (codes "%s" ++ (after ++ more)) (x ∷ args) hb
      ∙ ap (λ t. before ++ (x ++ t)) (sprintf-plain after more args ha)

  sprintf-last :
      (x : Text)
      → has_no_verb before ≡ true
      → has_no_verb after ≡ true
      → sprintf form (x ∷ []) ≡ before ++ (x ++ after)
  unfolding sprintf_from
  sprintf-last x hb ha =
      ap (λ f. sprintf f (x ∷ [])) (sym (append-nil form))
      ∙ sprintf-element x [] [] hb ha
      ∙ ap (λ t. before ++ (x ++ t)) (append-nil after)

  do_from-listed :
      (idx len : ℕ) (xs : List Text)
      → has_no_verb before ≡ true
      → has_no_verb after ≡ true
      → idx + length xs ≡ len
      → do_from form separator operator idx len xs
        ≡ listed separator operator (dressed before after xs)
  unfolding do_from listed
  do_from-listed idx len [] hb ha e = refl
  do_from-listed idx len (x ∷ []) hb ha e =
      let t : ltb (idx + 2) len ≡ false = ground arith in
      let u : ltb (idx + 1) len ≡ false = ground arith in
      rw (t, u) (append-nil _ ∙ sprintf-last x hb ha)
  do_from-listed idx len (x ∷ y ∷ []) hb ha e =
      let t : ltb (idx + 2) len ≡ false = ground arith in
      let u : ltb (idx + 1) len ≡ true = ground arith in
      let rest = do_from-listed (suc idx) len (y ∷ []) hb ha (omega arith) in
      rw (t, u)
        (ap₂ ◌++◌ (sprintf-element x (codes "%s %s ") (separator ∷ operator ∷ []) hb ha) rest
          ∙ shift_two before x after separator operator _)
  do_from-listed idx len (x ∷ y ∷ z ∷ zs) hb ha e =
      let t : ltb (idx + 2) len ≡ true = ground arith in
      let rest = do_from-listed (suc idx) len (y ∷ z ∷ zs) hb ha (omega arith) in
      rw t (
        ap₂ ◌++◌ (sprintf-element x (codes "%s ") (separator ∷ []) hb ha) rest
        ∙ shift_one before x after separator _)

-- If the pattern is a text with one `%s` and no other verb, then Do prints the elements, each
-- between the two parts of the pattern, in a row with the separator, or a comma if that is empty, and
-- the operator, or `and` if that is empty; and after them, where it is asked for, the verb that agrees
-- with their number.
pub enumerate-listed :
    (before after separator operator : Text) (active : Bool) (xs : List Text)
    → has_no_verb before ≡ true
    → has_no_verb after ≡ true
    → enumerate
        (record {
          form = before ++ (codes "%s" ++ after);
          separator = separator;
          operator = operator;
          active = active;
        })
        xs
      ≡ listed
          (given separator (codes ","))
          (given operator (codes "and"))
          (dressed before after xs)
        ++ agreeing active xs
unfolding enumerate is_empty
enumerate-listed before after separator operator active xs hb ha = rw form-full (
    ap₂ ◌++◌
      (ap₂ (λ s o. do_from (before ++ (codes "%s" ++ after)) s o 0 (length xs) xs)
          (defaulted separator _) (defaulted operator _)
        ∙ do_from-listed before after (given separator (codes ",")) (given operator (codes "and")) 0
            (length xs) xs hb ha (omega arith))
      (ending-agreeing active xs))
  where
    full : (t : Text) → is_empty (t ++ (codes "%s" ++ after)) ≡ false
    full [] = refl
    full (c ∷ t) = refl

    form-full : is_empty (before ++ (codes "%s" ++ after)) ≡ false
    form-full = full before
