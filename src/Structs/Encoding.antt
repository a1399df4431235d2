-- ===== src/Structs/Encoding.antt =====
-- One way to write an Object as numbers and to read it back, which meets Serializable. (The program's
-- own is generated from structs/schema.benc.) An encoder puts its numbers in front of what follows.
use juicemud.Base.{
  ℕ, zero, suc, ◌≡◌, refl, Bool, true, false, List, [], ◌∷◌, Option, none, some, Text, length,
  Result, ok, err, invalid, Assoc,
}
use juicemud.Structs.{Skill, Challenge, Description, Exit, Object}
use juicemud.Dbm.Typed.{Serializable}

record Codec (A : Type 0) : Type 0 where
  enc : A → List ℕ → List ℕ
  dec : List ℕ → Option (A × List ℕ)
  law : (a : A) (rest : List ℕ) → dec (enc a rest) ≡ some (a, rest)

abbrev bind {ℓ} : {A B : Type ℓ} → Option A → (A → Option B) → Option B
bind none f = none
bind (some a) f = f a

nat_dec : List ℕ → Option (ℕ × List ℕ)
nat_dec [] = none
nat_dec (n ∷ r) = some (n, r)

nat_codec : Codec ℕ
unfolding nat_dec
nat_codec = record { enc = λ n r. n ∷ r; dec = nat_dec; law = λ n r. refl }

bool_dec : List ℕ → Option (Bool × List ℕ)
bool_dec [] = none
bool_dec (zero ∷ r) = some (false, r)
bool_dec (suc n ∷ r) = some (true, r)

bool_enc : Bool → List ℕ → List ℕ
bool_enc false r = 0 ∷ r
bool_enc true r = 1 ∷ r

bool_law : (b : Bool) (r : List ℕ) → bool_dec (bool_enc b r) ≡ some (b, r)
unfolding bool_dec bool_enc
bool_law false r = refl
bool_law true r = refl

bool_codec : Codec Bool
bool_codec = record { enc = bool_enc; dec = bool_dec; law = bool_law }

module _ {A B : Type 0} (ca : Codec A) (cb : Codec B) where
  pair_enc : A × B → List ℕ → List ℕ
  pair_enc (a, b) r = ca.enc a (cb.enc b r)

  pair_dec : List ℕ → Option ((A × B) × List ℕ)
  pair_dec r = bind (ca.dec r) λ (a, r'). bind (cb.dec r') λ (b, r''). some ((a, b), r'')

  pair_law : (p : A × B) (r : List ℕ) → pair_dec (pair_enc p r) ≡ some (p, r)
  unfolding pair_dec pair_enc
  pair_law (a, b) r = rw (ca.law a (cb.enc b r), cb.law b r)

  pair_codec : Codec (A × B)
  pair_codec = record { enc = pair_enc; dec = pair_dec; law = pair_law }

-- A type that is written as another.
module _ {A B : Type 0} (cb : Codec B) (to : A → B) (from : B → A)
    (inv : (a : A) → from (to a) ≡ a) where
  via_dec : List ℕ → Option (A × List ℕ)
  via_dec r = bind (cb.dec r) λ (b, r'). some (from b, r')

  via_law : (a : A) (r : List ℕ) → via_dec (cb.enc (to a) r) ≡ some (a, r)
  unfolding via_dec
  via_law a r = rw (cb.law (to a) r, inv a)

  via_codec : Codec A
  via_codec = record { enc = λ a r. cb.enc (to a) r; dec = via_dec; law = via_law }

module _ {A : Type 0} (ca : Codec A) where
  items_enc : List A → List ℕ → List ℕ
  items_enc [] r = r
  items_enc (x ∷ xs) r = ca.enc x (items_enc xs r)

  items_dec : ℕ → List ℕ → Option (List A × List ℕ)
  items_dec zero r = some ([], r)
  items_dec (suc n) r =
      bind (ca.dec r) λ (x, r'). bind (items_dec n r') λ (xs, r''). some (x ∷ xs, r'')

  items_law : (xs : List A) (r : List ℕ) → items_dec (length xs) (items_enc xs r) ≡ some (xs, r)
  unfolding items_dec items_enc
  items_law [] r = refl
  items_law (x ∷ xs) r = rw (ca.law x (items_enc xs r), items_law xs r)

  list_dec : List ℕ → Option (List A × List ℕ)
  list_dec [] = none
  list_dec (n ∷ r) = items_dec n r

  list_law : (xs : List A) (r : List ℕ) → list_dec (length xs ∷ items_enc xs r) ≡ some (xs, r)
  unfolding list_dec
  list_law xs r = items_law xs r

  list_codec : Codec (List A)
  list_codec = record { enc = λ xs r. length xs ∷ items_enc xs r; dec = list_dec; law = list_law }

text_codec : Codec Text
text_codec = list_codec nat_codec

map_codec : {A : Type 0} → Codec A → Codec (Assoc A)
map_codec c = list_codec (pair_codec text_codec c)

skill_codec : Codec Skill
skill_codec =
    via_codec (pair_codec nat_codec nat_codec) (λ s. (s.theoretical, s.practical))
      (λ (a, b). record { theoretical = a; practical = b }) (λ s. refl)

challenge_codec : Codec Challenge
challenge_codec =
    via_codec (pair_codec text_codec (pair_codec nat_codec text_codec))
      (λ c. (c.skill, (c.level, c.message)))
      (λ (a, b). record { skill = a; level = b.0; message = b.1 }) (λ c. refl)

description_codec : Codec Description
description_codec =
    via_codec
      (pair_codec text_codec
        (pair_codec text_codec (pair_codec (list_codec text_codec) (list_codec challenge_codec))))
      (λ d. (d.short, (d.long, (d.tags, d.challenges))))
      (λ (a, b). record { short = a; long = b.0; tags = b.1.0; challenges = b.1.1 }) (λ d. refl)

exit_codec : Codec Exit
exit_codec =
    via_codec
      (pair_codec (list_codec description_codec) (
        pair_codec (list_codec challenge_codec) (
          pair_codec (map_codec (list_codec challenge_codec))
            (pair_codec (list_codec text_codec) text_codec))))
      (λ e. (e.descriptions, (e.use_challenges, (e.transmit_challenges, (e.tags, e.destination)))))
      (λ (a, b). record {
        descriptions = a;
        use_challenges = b.0;
        transmit_challenges = b.1.0;
        tags = b.1.1.0;
        destination = b.1.1.1;
      })
      (λ e. refl)

object_codec : Codec Object
object_codec =
    via_codec
      (pair_codec (pair_codec text_codec (map_codec (map_codec bool_codec))) (
        pair_codec (pair_codec text_codec text_codec) (
          pair_codec (pair_codec (map_codec bool_codec) (map_codec skill_codec)) (
            pair_codec (pair_codec (list_codec description_codec) (list_codec exit_codec))
              (pair_codec text_codec nat_codec)))))
      (λ o. (
        (o.id, o.callbacks),
        (
          (o.state, o.location),
          ((o.content, o.skills), ((o.descriptions, o.exits), (o.source_path, o.source_mod_time))),
        ),
      ))
      (λ (a, b). record {
        id = a.0;
        callbacks = a.1;
        state = b.0.0;
        location = b.0.1;
        content = b.1.0.0;
        skills = b.1.0.1;
        descriptions = b.1.1.0.0;
        exits = b.1.1.0.1;
        source_path = b.1.1.1.0;
        source_mod_time = b.1.1.1.1;
      })
      (λ o. refl)

read_object : List ℕ → Result Object
read_object [] = err invalid
read_object (n ∷ r) = elim (object_codec.dec r) [ none ↦ err invalid | some (o, rest) ↦ ok o ]

read_object_law : (o : Object) → read_object (0 ∷ object_codec.enc o []) ≡ ok o
unfolding read_object
read_object_law o = rw (object_codec.law o [], read_object)

pub object_bytes : Serializable Object
unfolding read_object
object_bytes = record {
  marshal = λ o. 0 ∷ object_codec.enc o [];
  unmarshal = read_object;
  unmarshal-marshal = read_object_law;
  marshal_nonempty = λ o e. cc;
}
