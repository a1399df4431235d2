-- ===== src/Dbm/Typed.antt =====
-- TypeHash and SProc: values of a type that can be written as bytes, and batches over them.
use juicemud.Base.{
  ℕ, ◌≡◌, ◌≢◌, refl, sym, ◌∙◌, ◌⊎◌, inl, inr, Bool, true, List, [], ◌∷◌, map, Option, none, some,
  Text, ◌=~◌, =~_iff, arith, Bool-cases, not_exist, driver, Result, ok, err, ◌>>=◌,
}
use juicemud.Dbm.{
  Bytes, Status, success, not_found, failure, View, update, Tkrzw, Proc, finish, run_batch,
  hash_proc,
}
use juicemud.Dbm.Reference.{eval, settle, write_all, Committed}
use juicemud.Dbm.Batch.{hash_proc-Committed}

-- The interface Serializable, with the round trip that its users rely on. Marshal fills a slice of
-- Size bytes, which holds at least the tag of the message.
pub record Serializable (T : Type 0) : Type 0 where
  pub marshal : T → Bytes
  pub unmarshal : Bytes → Result T
  pub unmarshal-marshal : (x : T) → unmarshal (marshal x) ≡ ok x
  pub marshal_nonempty : (x : T) → marshal x ≢ []

-- SProc: a batch entry over values.
pub record SProc (T : Type 0) : Type 0 where
  pub k : Text
  pub f : Text → Option T → Result (Option T)

-- The values of a store, by key.
abbrev pub Values : Type 0 → Type 0
Values T = Text → Option T

module _ {T : Type 0} where
  -- The outputs of a batch on the values as they are, or its first error.
  unfoldable pub eval_values : Values T → List (SProc T) → Result (List (Option T))
  eval_values vals [] = ok []
  eval_values vals (p ∷ ps) = do o ← p.f p.k (vals p.k); os ← eval_values vals ps; ok (o ∷ os)

  unfoldable pub write_values : Values T → List (SProc T) → List (Option T) → Values T
  write_values vals (p ∷ ps) (o ∷ os) = write_values (update vals p.k o) ps os
  write_values vals _ _ = vals

module _ {T : Type 0} (s : Serializable T) where
  open s use {marshal, unmarshal, unmarshal-marshal, marshal_nonempty}

  -- The first part of SProc.Proc: nil stays nil.
  pub decode : Option Bytes → Result (Option T)
  decode none = ok none
  decode (some b) = unmarshal b >>= λ x. ok (some x)

  abbrev pub encode : Option T → Option Bytes
  encode none = none
  encode (some x) = some (marshal x)

  -- SProc.Proc
  pub sproc : SProc T → Text → Option Bytes → Result (Option Bytes)
  unfolding decode
  sproc p k v = do input ← decode v; output ← p.f k input; ok (encode output)

  -- An SProc as a Proc.
  abbrev pub as_proc : SProc T → Proc
  as_proc p = record { key = p.k; proc = sproc p }

  -- The store holds exactly these values.
  abbrev pub Encodes : View → Values T → Type 0
  Encodes v vals = (k : Text) → v k ≡ encode (vals k)

  decode-encode : (o : Option T) → decode (encode o) ≡ ok o
  unfolding decode
  decode-encode none = refl
  decode-encode (some x) = rw unmarshal-marshal

  encode_result : Result (List (Option T)) → Result (List (Option Bytes))
  encode_result (ok os) = ok (map encode os)
  encode_result (err e) = err e

  encode_result-cons :
      (q : Result (Option T)) (r : Result (List (Option T)))
      → ((q >>= λ o. ok (encode o)) >>= λ o. encode_result r >>= λ os. ok (o ∷ os))
        ≡ encode_result (q >>= λ o. r >>= λ os. ok (o ∷ os))
  unfolding encode_result
  encode_result-cons (ok o) (ok os) = refl
  encode_result-cons (ok o) (err e) = refl
  encode_result-cons (err e) r = refl

  eval-encode :
      (v : View) (vals : Values T) (ps : List (SProc T))
      → Encodes v vals
      → eval v (map as_proc ps) ≡ encode_result (eval_values vals ps)
  unfolding eval eval_values encode_result sproc
  eval-encode v vals [] h = refl
  eval-encode v vals (p ∷ ps) h =
      rw (h p.k, decode-encode (vals p.k), eval-encode v vals ps h)
        (encode_result-cons (p.f p.k (vals p.k)) (eval_values vals ps))

  settle-encode : (old new : Option T) → settle (encode old) (encode new) ≡ encode new
  unfolding settle
  settle-encode old none = refl
  settle-encode none (some x) = ground (arith, =~_iff [] (marshal x), marshal_nonempty x)
  settle-encode (some y) (some x) = ground (arith, =~_iff (marshal y) (marshal x))

  write_all-encode :
      (v : View) (vals : Values T) (ps : List (SProc T)) (os : List (Option T))
      → Encodes v vals
      → Encodes (write_all v (map as_proc ps) (map encode os)) (write_values vals ps os)
  unfolding write_all write_values
  write_all-encode v vals [] os h = h
  write_all-encode v vals (p ∷ ps) [] h = h
  write_all-encode v vals (p ∷ ps) (o ∷ os) h =
      write_all-encode (update v p.k (settle (v p.k) (encode o))) (update vals p.k o) ps os λ k.
        elim (Bool-cases (p.k =~ k)) [
          | inl same ↦ rw (same, h p.k, settle-encode (vals p.k) o)
          | inr other ↦ rw (other, h k)
        ]

  -- What a typed batch has done, by what its functions return on the stored values.
  abbrev pub Applied :
      Values T → List (SProc T) → Result (List (Option T)) → View → Result (Unit {0}) → Type 0
  Applied vals ps (ok outs) v' r = (r ≡ ok tt) × Encodes v' (write_values vals ps outs)
  Applied vals ps (err e) v' r = (r ≡ err e) × Encodes v' vals

  Committed-Applied :
      (v v' : View) (vals : Values T) (ps : List (SProc T)) (q : Result (List (Option T)))
      (r : Result (Unit {0}))
      → Encodes v vals
      → Committed v (map as_proc ps) (encode_result q) v' r
      → Applied vals ps q v' r
  unfolding encode_result
  Committed-Applied v v' vals ps (ok outs) r h (e, w) =
      (e, λ k. w k ∙ write_all-encode v vals ps outs h k)
  Committed-Applied v v' vals ps (err x) r h (e, w) = (e, λ k. w k ∙ h k)

  module _ (t : Tkrzw) where
    open t use {Db, view, get}

    -- TypeHash.Get
    unfoldable pub type_get : Db → Text → Result T
    type_get db k =
        let (b, status) = get db k in
        elim status [
          | success ↦ unmarshal b
          | not_found ↦ err not_exist
          | failure n ↦ err (driver n)
        ]

    -- TypeHash.Set
    pub type_set : Db → Text → T → Bool → Db × Result (Unit {0})
    type_set db k x overwrite =
        let (db', status) = t.set_record db k (marshal x) overwrite in (db', finish status none)

    -- How a read of `k` may end.
    abbrev pub Reads : Values T → Text → Result T → Type 0
    Reads vals k (ok x) = vals k ≡ some x
    Reads vals k (err e) = ((vals k ≡ none) × (e ≡ not_exist)) ⊎ ((n : ℕ) × (e ≡ driver n))

    found-Reads :
        (vals : Values T) (k : Text) (b : Bytes) (o : Option T)
        → vals k ≡ o
        → some b ≡ encode o
        → Reads vals k (unmarshal b)
    found-Reads vals k b none q e = absurd (cc)
    found-Reads vals k b (some x) q e =
        let same : b ≡ marshal x = ground arith in rw (same, unmarshal-marshal x) q

    Reads_missing :
        (vals : Values T) (k : Text) (o : Option T) → vals k ≡ o → none ≡ encode o → vals k ≡ none
    Reads_missing vals k none q e = q
    Reads_missing vals k (some x) q e = absurd (cc)

    status-Reads :
        (db : Db) (vals : Values T) (k : Text) (status : Status)
        → Encodes (view db) vals
        → (get db k).1 ≡ status
        → Reads vals k (type_get db k)
    unfolding type_get
    status-Reads db vals k success h q =
        rw (q, type_get)
          (found-Reads vals k (get db k).0 (vals k) refl (sym (t.get_success db k q) ∙ h k))
    status-Reads db vals k not_found h q =
        rw (q, type_get)
          (inl (Reads_missing vals k (vals k) refl (sym (t.get_not_found db k q) ∙ h k), refl))
    status-Reads db vals k (failure n) h q = rw (q, type_get) (inr (n, refl))

    -- If the store holds exactly the encodings of the given values, Get returns the value of its
    -- key, or os.ErrNotExist where there is none, or an error of tkrzw.
    pub type_get-Reads :
        (db : Db) (vals : Values T) (k : Text)
        → Encodes (view db) vals
        → Reads vals k (type_get db k)
    type_get-Reads db vals k h = status-Reads db vals k (get db k).1 h refl

    -- If the store holds exactly the encodings of the given values and tkrzw carries out the
    -- batch, a typed batch either writes what its functions return on those values, all of it, or
    -- returns the first error of a function and changes no value.
    pub proc-Applied :
        (db : Db) (vals : Values T) (ps : List (SProc T))
        → Encodes (view db) vals
        → (run_batch t db (map as_proc ps) true).2 ≡ success
        → let (db', r) = hash_proc t db (map as_proc ps) true in
          Applied vals ps (eval_values vals ps) (view db') r
    proc-Applied db vals ps h e =
        let done = hash_proc-Committed t db (map as_proc ps) e in
        Committed-Applied (view db) _ vals ps (eval_values vals ps) _ h
          (rw (eval-encode (view db) vals ps h) at done)
