-- ===== src/Dbm/Tests.antt =====
-- Batches at concrete inputs, over a store in memory.
use juicemud.Base.{
  ℕ, ◌≡◌, ◌+◌, map, refl, true, List, [], ◌∷◌, none, some, Text, ◌=~◌, Result, ok, err, invalid,
  if◌then◌else◌,
}
use juicemud.Dbm.{
  View, Bytes, Proc, hash_proc, run_batch, process_all, first_half, second_half, first_call,
  second_call,
}
use juicemud.Dbm.Reference.{Committed, eval}
use juicemud.Dbm.Batch.{hash_proc-Committed}
use juicemud.Dbm.Typed.{
  Serializable, SProc, Values, encode, Applied, eval_values, as_proc, proc-Applied,
}
use juicemud.Dbm.Memory.{memory}

abbrev a : Text
a = b'a' ∷ []

abbrev b : Text
b = b'b' ∷ []

abbrev records : View
records k = if a =~ k then some (1 ∷ []) else none

-- Copies what is at `a` to `b` and removes `a`: a processor for `b` that writes, and one for `a`.
abbrev swap_out : List Proc
swap_out =
    record { key = b; proc = λ k v. ok (some (1 ∷ [])) }
    ∷ record { key = a; proc = λ k v. ok none }
    ∷ []

-- The second processor fails.
abbrev failing : List Proc
failing =
    record { key = a; proc = λ k v. ok none } ∷ record { key = b; proc = λ k v. err invalid } ∷ []

written :
    ((hash_proc memory records swap_out true).0 a ≡ none)
    × ((hash_proc memory records swap_out true).0 b ≡ some (1 ∷ []))
    × ((hash_proc memory records failing true).0 a ≡ some (1 ∷ []))
    × ((hash_proc memory records failing true).1 ≡ err invalid)
unfolding hash_proc run_batch process_all first_half second_half first_call second_call ◌=~◌
written = (refl, refl, refl, refl)

hash_proc-Committed_example :
    let (db', r) = hash_proc memory records failing true in
    Committed records failing (eval records failing) db' r
unfolding run_batch
hash_proc-Committed_example = hash_proc-Committed memory records failing refl

-- Numbers as one byte.
abbrev read_number : Bytes → Result ℕ
read_number [] = err invalid
read_number (n ∷ b) = ok n

abbrev numbers : Serializable ℕ
numbers = record {
  marshal = λ n. n ∷ [];
  unmarshal = read_number;
  unmarshal-marshal = λ n. refl;
  marshal_nonempty = λ n e. cc;
}

abbrev seven_at_a : Values ℕ
seven_at_a k = if a =~ k then some 7 else none

abbrev encoded : View
encoded k = encode numbers (seven_at_a k)

-- Adds one to what is at `a`, and stores 3 at `b`.
abbrev count_up : List (SProc ℕ)
count_up =
    record { k = a; f = λ k v. elim v [ none ↦ err invalid | some n ↦ ok (some (n + 1)) ] }
    ∷ record { k = b; f = λ k v. ok (some 3) }
    ∷ []

proc-Applied_example :
    let (db', r) = hash_proc memory encoded (map (as_proc numbers) count_up) true in
    Applied numbers seven_at_a count_up (eval_values seven_at_a count_up) db' r
unfolding run_batch
proc-Applied_example = proc-Applied numbers memory encoded seven_at_a count_up (λ k. refl) refl
