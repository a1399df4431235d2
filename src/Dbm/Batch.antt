-- ===== src/Dbm/Batch.antt =====
-- Hash.Proc is all or nothing, and refines the reference.
use mathlib.Core.Path.{fun_ext}
use juicemud.Base.{
  ℕ, suc, ◌≡◌, refl, sym, ap, ◌∙◌, inl, inr, true, List, [], ◌∷◌, ◌++◌, Option, none, some, Text,
  length, set, get_elem?, arith, Error, Result, ok, err, ◌>>=◌, =~_iff, Bool-cases,
}
use juicemud.Dbm.{
  Bytes, success, View, update, act, KeyProc, process_all, Tkrzw, Proc, Progress, bytes_equal,
  first_call, second_call, first_half, second_half, blanks, begin, finish, run_batch, hash_proc,
}
use juicemud.Dbm.Reference.{eval, settle, write_all, Committed}

process_all-append :
    {S : Type 0} (v : View) (ps qs : List (KeyProc S)) (s : S)
    → process_all v (ps ++ qs) s ≡ process_all (process_all v ps s).0 qs (process_all v ps s).1
unfolding process_all
process_all-append v [] qs s = refl
process_all-append v (p ∷ ps) qs s =
    process_all-append (act v p.key (p.call p.key (v p.key) s).1) ps qs (p.call p.key (v p.key) s).0

-- Once a processor has failed, no other changes anything.
first_half-aborted :
    (v : View) (i : ℕ) (ps : List Proc) (os : List (Option Bytes)) (e : Error)
    → process_all v (first_half i ps) (record { outputs = os; abort = some e })
      ≡ (v, record { outputs = os; abort = some e })
unfolding process_all first_half first_call
first_half-aborted v i [] os e = refl
first_half-aborted v i (p ∷ ps) os e = first_half-aborted v (suc i) ps os e

second_half-aborted :
    (v : View) (i : ℕ) (ps : List Proc) (os : List (Option Bytes)) (e : Error)
    → process_all v (second_half i ps) (record { outputs = os; abort = some e })
      ≡ (v, record { outputs = os; abort = some e })
unfolding process_all second_half second_call
second_half-aborted v i [] os e = refl
second_half-aborted v i (p ∷ ps) os e = second_half-aborted v (suc i) ps os e

set-middle {ℓ} :
    {A : Type ℓ} (pre : List A) (x y : A) (rest : List A)
    → set (pre ++ x ∷ rest) (length pre) y ≡ pre ++ y ∷ rest
set-middle [] x y rest = refl
set-middle (p ∷ pre) x y rest = ap (λ t. p ∷ t) (set-middle pre x y rest)

get_elem?-middle {ℓ} :
    {A : Type ℓ} (pre : List A) (x : A) (rest : List A)
    → get_elem? (pre ++ x ∷ rest) (length pre) ≡ some x
get_elem?-middle [] x rest = refl
get_elem?-middle (p ∷ pre) x rest = get_elem?-middle pre x rest

length-snoc {ℓ} : {A : Type ℓ} (pre : List A) (x : A) → suc (length pre) ≡ length (pre ++ x ∷ [])
length-snoc [] x = refl
length-snoc (p ∷ pre) x = ap suc (length-snoc pre x)

snoc-append {ℓ} :
    {A : Type ℓ} (pre : List A) (x : A) (rest : List A) → (pre ++ x ∷ []) ++ rest ≡ pre ++ x ∷ rest
snoc-append [] x rest = refl
snoc-append (p ∷ pre) x rest = ap (λ t. p ∷ t) (snoc-append pre x rest)

-- How the first loop leaves the shared variables.
abbrev AfterFirst : List (Option Bytes) → Result (List (Option Bytes)) → Progress → Type 0
AfterFirst pre (ok outs) s = s ≡ record { outputs = pre ++ outs; abort = none }
AfterFirst pre (err e) s =
    (os : List (Option Bytes)) × (s ≡ record { outputs = os; abort = some e })

AfterFirst-cons :
    (pre : List (Option Bytes)) (o : Option Bytes) (r : Result (List (Option Bytes))) (s : Progress)
    → AfterFirst (pre ++ o ∷ []) r s
    → AfterFirst pre (r >>= λ os. ok (o ∷ os)) s
AfterFirst-cons pre o (ok os) s h = h ∙ rw (snoc-append pre o os)
AfterFirst-cons pre o (err e) s h = h

abbrev FirstDone : View → List (Option Bytes) → List Proc → ℕ → Type 0
FirstDone v pre ps i =
    let r = process_all v (first_half i ps) (record { outputs = pre ++ blanks ps; abort = none }) in
    (r.0 ≡ v) × AfterFirst pre (eval v ps) r.1

-- One processor of the first loop: it stores its output, or aborts.
module _ (v : View) (p : Proc) (ps : List Proc) (i : ℕ) (os : List (Option Bytes)) where
  first_half-ok :
      (o : Option Bytes)
      → p.proc p.key (v p.key) ≡ ok o
      → process_all v (first_half i (p ∷ ps)) (record { outputs = os; abort = none })
        ≡ process_all v (first_half (suc i) ps) (record { outputs = set os i o; abort = none })
  unfolding process_all first_half first_call
  first_half-ok o q = rw (q, first_call, process_all)

  first_half-err :
      (e : Error)
      → p.proc p.key (v p.key) ≡ err e
      → process_all v (first_half i (p ∷ ps)) (record { outputs = os; abort = none })
        ≡ (v, record { outputs = os; abort = some e })
  unfolding process_all first_half first_call
  first_half-err e q = rw (q, first_call, process_all) (first_half-aborted v (suc i) ps os e)

FirstDone-step :
    (v : View) (pre : List (Option Bytes)) (p : Proc) (ps : List Proc) (i : ℕ)
    → i ≡ length pre
    → ((o : Option Bytes) → FirstDone v (pre ++ o ∷ []) ps (suc i))
    → (r : Result (Option Bytes)) → p.proc p.key (v p.key) ≡ r
    → FirstDone v pre (p ∷ ps) i
unfolding eval
FirstDone-step v pre p ps i e rest (err x) q =
    rw (first_half-err v p ps i (pre ++ none ∷ blanks ps) x q, q)
      (refl, (pre ++ none ∷ blanks ps, refl))
FirstDone-step v pre p ps i e rest (ok o) q =
    let stored : set (pre ++ none ∷ blanks ps) i o ≡ (pre ++ o ∷ []) ++ blanks ps =
      rw (e, set-middle pre none o (blanks ps)) (sym (snoc-append pre o (blanks ps))) in
    rw (first_half-ok v p ps i (pre ++ none ∷ blanks ps) o q, q, stored)
      ((rest o).0, AfterFirst-cons pre o (eval v ps) _ (rest o).1)

first_half-eval :
    (v : View) (pre : List (Option Bytes)) (ps : List Proc) (i : ℕ)
    → i ≡ length pre
    → FirstDone v pre ps i
unfolding process_all first_half eval
first_half-eval v pre [] i e = (refl, refl)
first_half-eval v pre (p ∷ ps) i e =
    FirstDone-step v pre p ps i e
      (λ o. first_half-eval v (pre ++ o ∷ []) ps (suc i) (ap suc e ∙ length-snoc pre o))
      (p.proc p.key (v p.key)) refl

-- One processor of the second loop settles its record.
second_half-one :
    (v : View) (p : Proc) (ps : List Proc) (i : ℕ) (os : List (Option Bytes)) (o : Option Bytes)
    → get_elem? os i ≡ some o
    → process_all v (second_half i (p ∷ ps)) (record { outputs = os; abort = none })
      ≡ process_all
          (update v p.key (settle (v p.key) o))
          (second_half (suc i) ps)
          (record { outputs = os; abort = none })
unfolding process_all second_half second_call settle
second_half-one v p ps i os none q = rw (q, second_call, process_all)
second_half-one v p ps i os (some b) q = elim (Bool-cases (bytes_equal (v p.key) b)) [
  | inl same ↦
      rw (q, second_call, process_all, same)
        (ap (λ w. process_all w (second_half (suc i) ps) (record { outputs = os; abort = none }))
          (fun_ext (λ k. ground (arith, =~_iff p.key k))))
  | inr differ ↦ rw (q, second_call, process_all, differ)
]

second_half-writes :
    (v : View) (pre outs : List (Option Bytes)) (ps : List Proc) (i : ℕ)
    → i ≡ length pre
    → length outs ≡ length ps
    → process_all v (second_half i ps) (record { outputs = pre ++ outs; abort = none })
      ≡ (write_all v ps outs, record { outputs = pre ++ outs; abort = none })
unfolding process_all second_half write_all
second_half-writes v pre [] [] i e n = refl
second_half-writes v pre [] (p ∷ ps) i e n = absurd (omega arith)
second_half-writes v pre (o ∷ outs) [] i e n = absurd (omega arith)
second_half-writes v pre (o ∷ outs) (p ∷ ps) i e n =
    let at : get_elem? (pre ++ o ∷ outs) i ≡ some o = rw (e, get_elem?-middle pre o outs) in
    let next =
      second_half-writes (update v p.key (settle (v p.key) o)) (pre ++ o ∷ []) outs ps (suc i)
        (ap suc e ∙ length-snoc pre o) (omega arith) in
    second_half-one v p ps i (pre ++ o ∷ outs) o at ∙ (rw (snoc-append pre o outs) at next)

-- One output for each processor, if there is no error.
abbrev OfLength : ℕ → Result (List (Option Bytes)) → Type 0
OfLength n (ok outs) = length outs ≡ n
OfLength n (err e) = Unit

OfLength-cons :
    (n : ℕ) (q : Result (Option Bytes)) (r : Result (List (Option Bytes)))
    → OfLength n r
    → OfLength (suc n) (q >>= λ o. r >>= λ os. ok (o ∷ os))
OfLength-cons n (ok o) (ok os) h = ap suc h
OfLength-cons n (ok o) (err e) h = tt
OfLength-cons n (err e) r h = tt

eval-OfLength : (v : View) (ps : List Proc) → OfLength (length ps) (eval v ps)
unfolding eval
eval-OfLength v [] = refl
eval-OfLength v (p ∷ ps) =
    OfLength-cons (length ps) (p.proc p.key (v p.key)) (eval v ps) (eval-OfLength v ps)

-- What the two loops leave, by what the processors return on the records as they were.
abbrev Processed : View → List Proc → Result (List (Option Bytes)) → View × Progress → Type 0
Processed v ps (ok outs) r = (r.0 ≡ write_all v ps outs) × (r.1.abort ≡ none)
Processed v ps (err e) r = (r.0 ≡ v) × (r.1.abort ≡ some e)

batch-Processed :
    (v : View) (ps : List Proc) (r : Result (List (Option Bytes))) (s : Progress)
    → process_all v (first_half 0 ps) (begin ps) ≡ (v, s)
    → AfterFirst [] r s
    → OfLength (length ps) r
    → Processed v ps r (process_all v (first_half 0 ps ++ second_half 0 ps) (begin ps))
batch-Processed v ps (ok outs) s e a n =
    rw
      (
        process_all-append v (first_half 0 ps) (second_half 0 ps) (begin ps),
        e,
        a,
        second_half-writes v [] outs ps 0 refl n,
      )
      (refl, refl)
batch-Processed v ps (err x) s e a n =
    rw
      (
        process_all-append v (first_half 0 ps) (second_half 0 ps) (begin ps),
        e,
        a.1,
        second_half-aborted v 0 ps a.0 x,
      )
      (refl, refl)

run-Processed :
    (v : View) (ps : List Proc)
    → Processed v ps (eval v ps) (process_all v (first_half 0 ps ++ second_half 0 ps) (begin ps))
run-Processed v ps =
    let (same, after) = first_half-eval v [] ps 0 refl in
    let s = (process_all v (first_half 0 ps) (begin ps)).1 in
    batch-Processed v ps (eval v ps) s (λ i. (same i, s)) after (eval-OfLength v ps)

module _ (t : Tkrzw) where
  Processed-Committed :
      (db db' : t.Db) (ps : List Proc) (r : Result (List (Option Bytes))) (q : View × Progress)
      (s : Progress)
      → Processed (t.view db) ps r q
      → ((k : Text) → t.view db' k ≡ q.0 k)
      → s ≡ q.1
      → Committed (t.view db) ps r (t.view db') (finish success s.abort)
  Processed-Committed db db' ps (ok outs) q s (wrote, fine) e f =
      (rw (f, fine), λ k. e k ∙ rw wrote)
  Processed-Committed db db' ps (err x) q s (wrote, failed) e f =
      (rw (f, failed), λ k. e k ∙ rw wrote)

  -- If tkrzw's ProcessMulti succeeds, Hash.Proc has either written every output, each computed from
  -- the records as they were before the call, or returned the first error of a processor and
  -- changed no record.
  pub hash_proc-Committed :
      (db : t.Db) (ps : List Proc)
      → (run_batch t db ps true).2 ≡ success
      → let (db', r) = hash_proc t db ps true in
        Committed (t.view db) ps (eval (t.view db) ps) (t.view db') r
  unfolding hash_proc run_batch
  hash_proc-Committed db ps h =
      let (e, f) = t.process_multi_success db (first_half 0 ps ++ second_half 0 ps) (begin ps) h in
      rw h (
        Processed-Committed db (run_batch t db ps true).0 ps (eval (t.view db) ps) _
          (run_batch t db ps true).1 (run-Processed (t.view db) ps) e f)
