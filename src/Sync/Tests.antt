-- ===== src/Sync/Tests.antt =====
-- Locks, the clock and the map of a SyncMap in concrete runs.
use juicemud.Base.{ℕ, ◌≡◌, ◌≢◌, refl, arith, ◌⊎◌, true, [], ◌∷◌, Text, ◌=~◌, lookup, insert}
use juicemud.Sync.Locks
use juicemud.Sync.Clock
use juicemud.Sync.Ascent
use juicemud.Sync.Exclusion.{Reach-exclusive, Reach-no_lost_wakeup}

abbrev a : Text
a = b'a' ∷ []

abbrev one : Locks.World
one = record Locks.start { pc = Locks.move Locks.start.pc 0 (Locks.trying a) }

abbrev two : Locks.World
two = Locks.try_step one 0 a

abbrev three : Locks.World
three = record two { pc = Locks.move two.pc 1 (Locks.trying a) }

-- Thread 0 holds the lock of `a`, and thread 1 waits for it.
abbrev contended : Locks.World
contended = Locks.try_step three 1 a

contended_reached : Locks.Reach contended
unfolding Locks.try_step Locks.trylock
contended_reached =
    Locks.next
      (Locks.next
        (Locks.next (Locks.next Locks.here (Locks.call_lock Locks.start 0 a refl))
          (Locks.call_trylock one 0 a refl))
        (Locks.call_lock two 1 a refl))
      (Locks.call_trylock three 1 a refl)

Reach-exclusive_example : ◌≡◌ {A = ℕ} 0 0
unfolding Locks.try_step Locks.trylock lookup
Reach-exclusive_example = Reach-exclusive contended_reached 0 0 a refl refl

Reach-no_lost_wakeup_example :
    (contended.shared.finished 0 ≡ true) ⊎ ((u : ℕ) × (contended.pc u ≡ Locks.holding a))
unfolding Locks.try_step Locks.trylock ◌=~◌ lookup insert
Reach-no_lost_wakeup_example = Reach-no_lost_wakeup contended_reached 1 a 0 refl

-- A whole call of Increment of a caller, which reads the clock once.
abbrev after_call : Clock.World → ℕ → ℕ → Clock.World
after_call w t now = record {
  previous = now;
  pc =
      Clock.move
        (Clock.move
          (Clock.move (Clock.move w.pc t (Clock.read now)) t (Clock.loaded now w.previous)) t
          (Clock.swapped now))
        t (Clock.returned now);
  given = now ∷ w.given;
}

abbrev one_call : Clock.World
one_call = after_call Clock.start 0 7

first_call : Clock.Reach Clock.start one_call
unfolding Clock.swap_step
first_call =
    Clock.next
      (Clock.next
        (Clock.next (Clock.next Clock.here (Clock.read_clock _ 0 7 refl)) (Clock.load _ 0 7 refl))
        (Clock.compare_and_swap _ 0 7 0 refl))
      (Clock.give _ 0 7 refl)

second_call : Clock.Reach one_call (after_call one_call 1 9)
unfolding Clock.swap_step
second_call =
    Clock.next
      (Clock.next
        (Clock.next (Clock.next Clock.here (Clock.read_clock _ 1 9 refl)) (Clock.load _ 1 9 refl))
        (Clock.compare_and_swap _ 1 9 7 refl))
      (Clock.give _ 1 9 refl)

both_calls : Clock.Reach Clock.start (after_call one_call 1 9)
unfolding Clock.swap_step
both_calls =
    Clock.next
      (Clock.next
        (Clock.next (Clock.next first_call (Clock.read_clock _ 1 9 refl)) (Clock.load _ 1 9 refl))
        (Clock.compare_and_swap _ 1 9 7 refl))
      (Clock.give _ 1 9 refl)

Reach-above_example : Ascent.AllBelow 9 (7 ∷ [])
Reach-above_example =
    Ascent.Reach-above one_call (after_call one_call 1 9) 1 9 first_call refl second_call refl

abbrev seven : ℕ
seven = 7

Reach-distinct_example : seven ≢ 9
Reach-distinct_example =
    Ascent.Reach-distinct (after_call one_call 1 9) 0 1 7 9 both_calls (λ e. omega arith) refl refl
