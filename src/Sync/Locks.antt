-- ===== src/Sync/Locks.antt =====
-- SyncMap.Lock and SyncMap.Unlock: the shared state, and the threads that use it. A wait group is
-- its number; it is done once Unlock has called Done.
use juicemud.Base.{
  ℕ, ◌+◌, ◌≡◌, Bool, true, false, Option, none, some, Text, if◌then◌else◌, ◌==◌, Assoc, [], lookup,
  insert, erase,
}

pub record Shared : Type 0 where
  pub locks : Assoc ℕ
  pub fresh : ℕ
  pub finished : ℕ → Bool

-- The closure trylock of Lock: the group to wait for, or none, and then the lock is taken.
unfoldable pub trylock : Shared → Text → Shared × Option ℕ
trylock s key = elim (lookup key s.locks) [
  | some wg ↦ (s, some wg)
  | none ↦ (record s { locks = insert key s.fresh s.locks; fresh = s.fresh + 1 }, none)
]

-- Unlock
unfoldable pub unlock : Shared → Text → Shared
unlock s key = elim (lookup key s.locks) [
  | none ↦ s
  | some wg ↦ record s {
    locks = erase key s.locks;
    finished = λ g. if wg == g then true else s.finished g;
  }
]

-- Where a thread is: outside, before a call of trylock, in Wait, or between Lock and Unlock.
pub data Pc : Type 0 where
  outside : Pc
  trying : Text → Pc
  waiting : Text → ℕ → Pc
  holding : Text → Pc

pub record World : Type 0 where
  pub shared : Shared
  pub pc : ℕ → Pc

abbrev pub move : (ℕ → Pc) → ℕ → Pc → ℕ → Pc
move pc t p u = if t == u then p else pc u

-- What the loop of Lock does with the result of trylock.
abbrev pub after_try : Text → Option ℕ → Pc
after_try key none = holding key
after_try key (some wg) = waiting key wg

unfoldable pub try_step : World → ℕ → Text → World
unfolding trylock
try_step w t key =
    let (s, r) = trylock w.shared key in record { shared = s; pc = move w.pc t (after_try key r) }

-- One thread takes one step; which one is up to the scheduler.
pub data Step : World → World → Type 0 where
  call_lock :
      (w : World) (t : ℕ) (key : Text)
      → w.pc t ≡ outside
      → Step w (record w { pc = move w.pc t (trying key) })
  call_trylock : (w : World) (t : ℕ) (key : Text) → w.pc t ≡ trying key → Step w (try_step w t key)
  wake :
      (w : World) (t : ℕ) (key : Text) (wg : ℕ)
      → w.pc t ≡ waiting key wg
      → w.shared.finished wg ≡ true
      → Step w (record w { pc = move w.pc t (trying key) })
  call_unlock :
      (w : World) (t : ℕ) (key : Text)
      → w.pc t ≡ holding key
      → Step w (record { shared = unlock w.shared key; pc = move w.pc t outside })

-- NewSyncMap, with every thread outside.
abbrev pub start : World
start = record {
  shared = record { locks = []; fresh = 0; finished = λ g. false };
  pc = λ t. outside;
}

pub data Reach : World → Type 0 where
  here : Reach start
  next : {w w' : World} → Reach w → Step w w' → Reach w'
