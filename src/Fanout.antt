-- ===== src/Fanout.antt =====
-- game/fanout.go: one writer for a set of terminals. A terminal is a number; what a write to it
-- gives is a parameter: how many bytes were written, or an error. The map is a list of terminals, in
-- the order in which the loop comes to them. `none` is the nil pointer.
pub mod Delivery
mod Tests
use juicemud.Base.{
  ℕ, Bool, List, [], ◌∷◌, Option, none, some, ◌==◌, ltb, if◌then◌else◌, length, ◌++◌, Error, Result,
  ok, err,
}

abbrev pub Fanout : Type 0
Fanout = List ℕ

-- `(*f)[t] = true`
unfoldable pub add : ℕ → Fanout → Fanout
add t [] = t ∷ []
add t (s ∷ f) = let rest = add t f in if s == t then s ∷ f else s ∷ rest

-- `delete(*f, t)`
unfoldable pub remove : ℕ → Fanout → Fanout
remove t [] = []
remove t (s ∷ f) = let rest = remove t f in if s == t then rest else s ∷ rest

-- Fanout.Push
unfoldable pub push : Option Fanout → ℕ → Option Fanout
unfolding add
push none t = some (t ∷ [])
push (some f) t = some (add t f)

-- Fanout.Drop
unfoldable pub drop : Option Fanout → ℕ → Option Fanout
unfolding remove
drop none t = none
drop (some f) t = some (remove t f)

-- The local variables of Write.
pub record Written : Type 0 where
  pub kept : Fanout
  pub errs : List Error
  pub max : ℕ

abbrev pub max_of : ℕ → ℕ → ℕ
max_of written max = if ltb max written then written else max

module _ (write_to : ℕ → List ℕ → Result ℕ) where
  -- The loop of Write.
  unfoldable pub write_all : Fanout → List ℕ → List Error → ℕ → Written
  write_all [] b errs max = record { kept = []; errs = errs; max = max }
  write_all (t ∷ f) b errs max = elim (write_to t b) [
    | err e ↦ write_all f b (errs ++ e ∷ []) max
    | ok n ↦ let w = write_all f b errs (max_of n max) in record w { kept = t ∷ w.kept }
  ]

  -- Fanout.Write: what is left of the terminals, the number, and the errors, if there are any.
  unfoldable pub write : Option Fanout → List ℕ → Option Fanout × ℕ × List Error
  unfolding write_all
  write none b = (none, length b, [])
  write (some f) b = let w = write_all f b [] 0 in (some w.kept, w.max, w.errs)
