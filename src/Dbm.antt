-- ===== src/Dbm.antt =====
-- storage/dbm/dbm.go: a key-value store over the tkrzw library, untyped (Hash) and typed (TypeHash).
-- tkrzw is not part of the repository: it is the parameter Tkrzw, with what the code relies on.
-- A byte slice is a list of numbers below 256; nil is `none`, where Go tells it from an empty slice.
pub mod Reference
pub mod Batch
pub mod Single
pub mod Typed
pub mod Memory
mod Tests
use juicemud.Base.{
  ℕ, zero, suc, ◌+◌, ◌≡◌, ◌≢◌, Bool, true, false, List, [], ◌∷◌, ◌++◌, Option, none, some, Text,
  ◌=~◌, if◌then◌else◌, length, set, get_elem?, Error, not_exist, driver, Result, ok, err, Assoc,
  insert, ◌>>=◌,
}

abbrev pub Bytes : Type 0
Bytes = List ℕ

-- tkrzw's status: its success, its NOT_FOUND_ERROR, or any other code.
pub data Status : Type 0 where
  success not_found : Status
  failure : ℕ → Status

-- What a processor tells tkrzw to do with its record: nil, RemoveBytes, or a new value.
pub data Action : Type 0 where
  keep remove_bytes : Action
  put : Bytes → Action

-- A processor of tkrzw's ProcessMulti. What the Go closure captures and changes is the state `S`.
pub record KeyProc (S : Type 0) : Type 0 where
  pub key : Text
  pub call : Text → Option Bytes → S → S × Action

-- The records of a store, by key.
abbrev pub View : Type 0
View = Text → Option Bytes

abbrev pub update {ℓ} : {V : Type ℓ} → (Text → Option V) → Text → Option V → Text → Option V
update v k x j = if k =~ j then x else v j

abbrev pub act : View → Text → Action → View
act v k keep = v
act v k remove_bytes = update v k none
act v k (put b) = update v k (some b)

-- ProcessMulti as documented: one call for each processor, in order, on its key's current record.
unfoldable pub process_all : {S : Type 0} → View → List (KeyProc S) → S → View × S
process_all v [] s = (v, s)
process_all v (p ∷ ps) s =
    let (s', a) = p.call p.key (v p.key) s in process_all (act v p.key a) ps s'

pub record Tkrzw : Type 1 where
  pub Db : Type 0
  pub view : Db → View
  pub get : Db → Text → Bytes × Status
  pub set_record : Db → Text → Bytes → Bool → Db × Status
  pub remove : Db → Text → Db × Status
  pub process_multi : {S : Type 0} → Db → List (KeyProc S) → Bool → S → Db × S × Status
  -- A call that succeeds has done what is documented.
  pub get_success : (db : Db) (k : Text) → (get db k).1 ≡ success → view db k ≡ some (get db k).0
  pub get_not_found : (db : Db) (k : Text) → (get db k).1 ≡ not_found → view db k ≡ none
  pub set_record_success :
      (db : Db) (k : Text) (b : Bytes)
      → (set_record db k b true).1 ≡ success
      → (j : Text) → view (set_record db k b true).0 j ≡ update (view db) k (some b) j
  pub remove_success :
      (db : Db) (k : Text)
      → (remove db k).1 ≡ success
      → (j : Text) → view (remove db k).0 j ≡ update (view db) k none j
  pub remove_missing : (db : Db) (k : Text) → view db k ≡ none → (remove db k).1 ≢ success
  pub process_multi_success :
      {S : Type 0} (db : Db) (ps : List (KeyProc S)) (s : S)
      → (process_multi db ps true s).2 ≡ success
      → ((j : Text) → view (process_multi db ps true s).0 j ≡ (process_all (view db) ps s).0 j)
        × ((process_multi db ps true s).1 ≡ (process_all (view db) ps s).1)

-- The interface Proc: a key, and what becomes of its value (`none` removes the record).
pub record Proc : Type 0 where
  pub key : Text
  pub proc : Text → Option Bytes → Result (Option Bytes)

-- The variables of Hash.Proc that its processors share.
pub record Progress : Type 0 where
  pub outputs : List (Option Bytes)
  pub abort : Option Error

-- `bytes.Equal`, which takes nil for an empty slice.
abbrev pub bytes_equal : Option Bytes → Bytes → Bool
bytes_equal none b = [] =~ b
bytes_equal (some a) b = a =~ b

-- The processors of the first loop compute the outputs and change no record.
pub first_call : ℕ → Proc → Text → Option Bytes → Progress → Progress × Action
first_call index pair k v s = elim s.abort [
  | some e ↦ (s, keep)
  | none ↦ elim (pair.proc k v) [
    | ok b ↦ (record s { outputs = set s.outputs index b }, keep)
    | err e ↦ (record s { abort = some e }, keep)
  ]
]

-- Those of the second loop write them.
pub second_call : ℕ → Text → Option Bytes → Progress → Progress × Action
second_call index k v s = elim s.abort [
  | some e ↦ (s, keep)
  | none ↦ elim (get_elem? s.outputs index) [
    | none ↦ (s, keep)
    | some none ↦ (s, remove_bytes)
    | some (some b) ↦ (s, (if bytes_equal v b then keep else put b))
  ]
]

pub first_half : ℕ → List Proc → List (KeyProc Progress)
first_half i [] = []
first_half i (p ∷ ps) = record { key = p.key; call = first_call i p } ∷ first_half (suc i) ps

pub second_half : ℕ → List Proc → List (KeyProc Progress)
second_half i [] = []
second_half i (p ∷ ps) = record { key = p.key; call = second_call i } ∷ second_half (suc i) ps

abbrev pub blanks : List Proc → List (Option Bytes)
blanks [] = []
blanks (p ∷ ps) = none ∷ blanks ps

abbrev pub begin : List Proc → Progress
begin pairs = record { outputs = blanks pairs; abort = none }

-- What a status other than success is returned as.
abbrev pub status_error : Status → Error
status_error success = driver 0
status_error not_found = driver 1
status_error (failure n) = driver n

abbrev pub finish : Status → Option Error → Result (Unit {0})
finish success none = ok tt
finish success (some e) = err e
finish not_found a = err (status_error not_found)
finish (failure n) a = err (driver n)

module _ (t : Tkrzw) where
  open t use {Db, get, set_record, remove, process_multi}

  -- Hash.Get
  unfoldable pub hash_get : Db → Text → Result Bytes
  hash_get db k =
      let (b, status) = get db k in
      elim status [ success ↦ ok b | not_found ↦ err not_exist | failure n ↦ err (driver n) ]

  -- Hash.Set
  pub hash_set : Db → Text → Bytes → Bool → Db × Result (Unit {0})
  hash_set db k v overwrite =
      let (db', status) = set_record db k v overwrite in (db', finish status none)

  -- Hash.Del
  pub hash_del : Db → Text → Db × Result (Unit {0})
  hash_del db k = let (db', status) = remove db k in (db', finish status none)

  -- The call of ProcessMulti in Hash.Proc.
  unfoldable pub run_batch : Db → List Proc → Bool → Db × Progress × Status
  run_batch db pairs write =
      process_multi db (first_half 0 pairs ++ second_half 0 pairs) write (begin pairs)

  -- Hash.Proc
  unfoldable pub hash_proc : Db → List Proc → Bool → Db × Result (Unit {0})
  hash_proc db pairs write =
      let (db', s, status) = run_batch db pairs write in (db', finish status s.abort)
