-- ===== src/Sync/Clock.antt =====
-- Increment: reading the clock until it is past the last value, and then a compare-and-swap. The
-- clock may read anything at any time; a value is below 2 ^ 64 until the year 2554.
use juicemud.Base.{ℕ, ◌≡◌, ◌&&◌, List, [], ◌∷◌, if◌then◌else◌, ◌==◌, ltb}

-- Where a caller is: at the top of the loop, with a reading, with a reading and the value that it
-- loaded, past the compare-and-swap, or returned.
pub data Pc : Type 0 where
  top : Pc
  read : ℕ → Pc
  loaded : ℕ → ℕ → Pc
  swapped : ℕ → Pc
  returned : ℕ → Pc

-- `given` holds every value that a call has returned, the last one first.
pub record World : Type 0 where
  pub previous : ℕ
  pub pc : ℕ → Pc
  pub given : List ℕ

abbrev pub move : (ℕ → Pc) → ℕ → Pc → ℕ → Pc
move pc t p u = if t == u then p else pc u

-- `next > previous && atomic.CompareAndSwapUint64(prevPointer, previous, next)`
unfoldable pub swap_step : World → ℕ → ℕ → ℕ → World
swap_step w t now old =
    if ltb old now && w.previous == old
    then record w { previous = now; pc = move w.pc t (swapped now) }
    else record w { pc = move w.pc t top }

pub data Step : World → World → Type 0 where
  read_clock :
      (w : World) (t now : ℕ) → w.pc t ≡ top → Step w (record w { pc = move w.pc t (read now) })
  load :
      (w : World) (t now : ℕ)
      → w.pc t ≡ read now
      → Step w (record w { pc = move w.pc t (loaded now w.previous) })
  compare_and_swap :
      (w : World) (t now old : ℕ) → w.pc t ≡ loaded now old → Step w (swap_step w t now old)
  give :
      (w : World) (t now : ℕ)
      → w.pc t ≡ swapped now
      → Step w (record w { pc = move w.pc t (returned now); given = now ∷ w.given })
  call_again :
      (w : World) (t now : ℕ) → w.pc t ≡ returned now → Step w (record w { pc = move w.pc t top })

abbrev pub start : World
start = record { previous = 0; pc = λ t. top; given = [] }

pub data Reach (w0 : World) : World → Type 0 where
  here : Reach w0 w0
  next : {w w' : World} → Reach w0 w → Step w w' → Reach w0 w'
