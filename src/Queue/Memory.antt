-- ===== src/Queue/Memory.antt =====
-- Trees that hold one event at most, for tests.
use juicemud.Base.{
  ℕ, ◌≡◌, refl, ap, ◌∙◌, inl, inr, ◌⊎◌, false, List, [], ◌∷◌, Option, none, some, Text, ◌=~◌, Error,
  not_exist, invalid, Result, ok, err, if◌then◌else◌, arith, Bool-cases,
}
use juicemud.Structs.{Event}
use juicemud.Structs.Keys.{key_lt, eights_lt, signed_lt, get_uint64}
use juicemud.Queue.{Tree, In, IsFirst, without}

pub key_lt_self : (k : Text) → key_lt k k ≡ false
unfolding key_lt signed_lt
key_lt_self k = go (get_uint64 k)
  where
    go : (o : Option ℕ) → eights_lt o o ≡ false
    go none = refl
    go (some a) = ground arith

abbrev pub held : Option Event → List Event
held none = []
held (some e) = e ∷ []

abbrev pub first_of : Option Event → Result Event
first_of none = err not_exist
first_of (some e) = ok e

pub first_of-IsFirst : (o : Option Event) → IsFirst (held o) (first_of o)
first_of-IsFirst none = λ h. refl
first_of-IsFirst (some e) = (inl refl, least)
  where
    least : (x : Event) → In x (e ∷ []) → key_lt x.key e.key ≡ false
    least x (inl same) = ap (λ k. key_lt k.key e.key) same ∙ key_lt_self e.key
    least x (inr nowhere) = absurd nowhere

abbrev pub dropped : Text → Option Event → Option Event
dropped k none = none
dropped k (some e) = if e.key =~ k then none else some e

pub dropped-held : (k : Text) (o : Option Event) → held (dropped k o) ≡ without k (held o)
dropped-held k none = refl
dropped-held k (some e) = elim (Bool-cases (e.key =~ k)) [
  | inl same ↦ rw same refl
  | inr other ↦ rw other refl
]

pub only : (e x : Event) (o : Option Event) → In x (e ∷ []) → (x ≡ e) ⊎ In x (held o)
only e x o (inl same) = inl same
only e x o (inr nowhere) = absurd nowhere

abbrev pub slot : Tree
slot = record {
  Db = Option Event;
  events = held;
  first = first_of;
  set = λ o e. (some e, ok tt);
  del = λ o k. (dropped k o, ok tt);
  first_events = first_of-IsFirst;
  set_events = λ o e x h at. only e x o at;
  del_events = λ o k h. dropped-held k o;
}

-- A tree that has room for one event, and refuses another.
abbrev pub filled : Option Event → Event → Option Event × Result (Unit {0})
filled none e = (some e, ok tt)
filled (some d) e = if d.key =~ e.key then (some e, ok tt) else (some d, err invalid)

pub filled-held :
    (o : Option Event) (e x : Event)
    → (filled o e).1 ≡ ok tt
    → In x (held (filled o e).0)
    → (x ≡ e) ⊎ In x (held o)
filled-held none e x done at = only e x none at
filled-held (some d) e x done at = elim (Bool-cases (d.key =~ e.key)) [
  | inl same ↦ only e x (some d) (rw same at at)
  | inr other ↦ inr (rw other at at)
]

pub filled-failed :
    (o : Option Event) (e x : Event) (y : Error)
    → (filled o e).1 ≡ err y
    → In x (held (filled o e).0)
    → In x (held o)
filled-failed none e x y bad at = absurd (cc)
filled-failed (some d) e x y bad at = elim (Bool-cases (d.key =~ e.key)) [
  | inl same ↦ absurd (let no : ◌≡◌ {A = Result (Unit {0})} (ok tt) (err y) = rw same at bad in cc)
  | inr other ↦ rw other at at
]

abbrev pub place : Tree
place = record {
  Db = Option Event;
  events = held;
  first = first_of;
  set = filled;
  del = λ o k. (dropped k o, ok tt);
  first_events = first_of-IsFirst;
  set_events = filled-held;
  del_events = λ o k h. dropped-held k o;
}
