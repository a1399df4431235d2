-- ===== src/Queue/Due.antt =====
-- The queue's next event is the earliest of its tree.
use juicemud.Base.{
  ℕ, ◌<◌, ◌≤◌, ◌^◌, ◌≡◌, refl, sym, ap, ◌∙◌, inl, inr, ◌⊎◌, true, false, Option, none, some,
  invalid, Result, ok, err, is_not_exist, if◌then◌else◌, arith, Bool-cases,
}
use mathlib.Core.Path.{subst}
use juicemud.Structs.{Event}
use juicemud.Structs.Keys.{create_key, key_lt, key_lt-create_key, signed_lt-le}
use juicemud.Queue.{Tree, In, IsFirst, Queue, peek_first, push, is_sooner, unless_missing}

-- An event whose key CreateKey has made, at a time below 2 ^ 63.
abbrev pub IsKeyed : Event → Type 0
IsKeyed x = (c : ℕ) × (x.at < 2 ^ 63) × ((create_key x c).key ≡ x.key)

pub keyed-le : (e x : Event) → IsKeyed e → IsKeyed x → key_lt x.key e.key ≡ false → e.at ≤ x.at
keyed-le e x (c, he, ke) (n, hx, kx) least =
    let order = key_lt-create_key x e n c (omega (arith, hx)) (omega (arith, he)) in
    let same : key_lt (create_key x n).key (create_key e c).key ≡ false =
      ap (λ k. key_lt k (create_key e c).key) kx ∙ ap (λ k. key_lt x.key k) ke ∙ least in
    signed_lt-le e.at x.at he hx (sym order ∙ same)

module _ (t : Tree) where
  -- Every event of the tree has the next event before it, or at its time.
  abbrev pub IsEarliest : t.Db → Option Event → Type 0
  IsEarliest db next =
      (x : Event) → In x (t.events db) → (e : Event) × (next ≡ some e) × (e.at ≤ x.at)

  -- What peekFirst finds is the earliest event, if every key was made by CreateKey, at a time below
  -- 2 ^ 63.
  pub peek_first-IsEarliest :
      (db : t.Db) (o : Option Event)
      → ((x : Event) → In x (t.events db) → IsKeyed x)
      → peek_first t db ≡ ok o
      → IsEarliest db o
  unfolding peek_first
  peek_first-IsEarliest db o keyed h = go (t.first db) (t.first_events db) h
    where
      go :
          (r : Result Event) → IsFirst (t.events db) r → unless_missing t r ≡ ok o → IsEarliest db o
      go (ok e) (there, least) found x at =
          (e, ground arith, keyed-le e x (keyed e there) (keyed x at) (least x at))
      go (err y) empty found x at = elim (Bool-cases (is_not_exist y)) [
        | inl missing ↦ absurd (subst (λ es. In x es) (empty missing) at)
        | inr failed ↦
            absurd
              (let bad : ◌≡◌ {A = Result (Option Event)} (err y) (ok o) = rw failed at found in cc)
      ]

  sooner-le :
      (ev : Event) (next : Option Event) (x e : Event)
      → is_sooner t ev next ≡ true
      → next ≡ some e
      → e.at ≤ x.at
      → ev.at ≤ x.at
  sooner-le ev none x e h n le = absurd (cc)
  sooner-le ev (some d) x e h n le =
      let same : d ≡ e = ground arith in ground (arith, ap (λ k. k.at) same)

  later-le :
      (ev : Event) (next : Option Event)
      → is_sooner t ev next ≡ false
      → (e : Event) × (next ≡ some e) × (e.at ≤ ev.at)
  later-le ev none h = absurd (cc)
  later-le ev (some e) h = (e, refl, ground arith)

  stored-IsEarliest :
      (q : Queue t) (ev : Event)
      → IsEarliest q.tree q.next_event
      → (t.set q.tree ev).1 ≡ ok tt
      → IsEarliest
          (t.set q.tree ev).0
          (if is_sooner t ev q.next_event then some ev else q.next_event)
  stored-IsEarliest q ev before stored x at = elim (Bool-cases (is_sooner t ev q.next_event)) [
    | inl sooner ↦ rw sooner (ev, refl, sooner_case sooner (t.set_events q.tree ev x stored at))
    | inr later ↦
        rw later (later_case (later-le ev q.next_event later) (t.set_events q.tree ev x stored at))
  ]
    where
      sooner_case :
          is_sooner t ev q.next_event ≡ true → (x ≡ ev) ⊎ In x (t.events q.tree) → ev.at ≤ x.at
      sooner_case h (inl same) = ground (arith, ap (λ k. k.at) same)
      sooner_case h (inr old) =
          let (e, next, le) = before x old in sooner-le ev q.next_event x e h next le

      later_case :
          ((e : Event) × (q.next_event ≡ some e) × (e.at ≤ ev.at))
          → (x ≡ ev) ⊎ In x (t.events q.tree)
          → (e : Event) × (q.next_event ≡ some e) × (e.at ≤ x.at)
      later_case (e, next, le) (inl same) = (e, next, ground (arith, ap (λ k. k.at) same))
      later_case l (inr old) = before x old

  -- Push keeps the next event the earliest of the tree, if it returns no error; and a Push to a
  -- closed queue changes nothing, and returns an error.
  pub push-IsEarliest :
      (n : ℕ) (event : Event) (q : Queue t)
      → IsEarliest q.tree q.next_event
      → let (q', r) = push t n event q in
        (r ≡ ok tt → IsEarliest q'.tree q'.next_event)
        × (q.closed ≡ true → (q' ≡ q) × (r ≡ err invalid))
  unfolding push
  push-IsEarliest n event q before = (kept, λ shut. (rw (shut, push) refl, rw (shut, push) refl))
    where
      ev : Event
      ev = create_key event n

      go :
          q.closed ≡ false
          → (r : Result (Unit {0})) → (t.set q.tree ev).1 ≡ r
          → (push t n event q).1 ≡ ok tt
          → IsEarliest (push t n event q).0.tree (push t n event q).0.next_event
      go open_still (ok u) e done = rw (open_still, e, push) (stored-IsEarliest q ev before e)
      go open_still (err x) e done =
          absurd (let bad : err x ≡ ok tt = rw (open_still, e, push) at done in cc)

      kept :
          (push t n event q).1 ≡ ok tt
          → IsEarliest (push t n event q).0.tree (push t n event q).0.next_event
      kept done = elim (Bool-cases q.closed) [
        | inl shut ↦ absurd (let bad : err invalid ≡ ok tt = rw (shut, push) at done in cc)
        | inr open_still ↦ go open_still (t.set q.tree ev).1 refl done
      ]
