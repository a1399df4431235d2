-- ===== src/Fanout/Tests.antt =====
-- Three terminals, one of which is gone.
use juicemud.Base.{
  ℕ, ◌≡◌, ◌≤◌, true, List, [], ◌∷◌, some, invalid, Result, ok, err, ◌==◌, if◌then◌else◌, arith,
  length,
}
use juicemud.Fanout.{Fanout, write}
use juicemud.Fanout.Delivery.{holds, AtMost, write-Delivered}

abbrev gone : ℕ → List ℕ → Result ℕ
gone t b = if t == 2 then err invalid else (if t == 1 then ok 0 else ok (length b))

gone-AtMost : AtMost gone 2 (7 ∷ 8 ∷ [])
gone-AtMost t n h = ground arith

abbrev terminals : Fanout
terminals = 1 ∷ 2 ∷ 3 ∷ []

write-Delivered_example :
    let (left, max, errs) = write gone (some terminals) (7 ∷ 8 ∷ []) in
    (left ≡ some (1 ∷ 3 ∷ []))
    × (errs ≡ invalid ∷ [])
    × (max ≤ 2)
    × ((t : ℕ) → holds t terminals ≡ true → gone t (7 ∷ 8 ∷ []) ≡ ok 2 → max ≡ 2)
write-Delivered_example = write-Delivered gone terminals (7 ∷ 8 ∷ []) gone-AtMost
