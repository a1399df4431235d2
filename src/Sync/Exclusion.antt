-- ===== src/Sync/Exclusion.antt =====
-- The locks of a SyncMap exclude one another, and no waiting thread is forgotten.
use juicemud.Base.{
  ℕ, ◌+◌, ◌<◌, ◌≤◌, ◌≡◌, ◌≢◌, refl, ◌⊎◌, inl, inr, true, false, none, some, Text, ◌=~◌, =~_iff,
  if◌then◌else◌, ◌==◌, arith, lookup, insert, erase, lookup-insert, lookup-erase, Bool-cases,
  Option-cases,
}
use juicemud.Sync.Locks.{
  trylock, unlock, outside, trying, waiting, holding, World, move, try_step, Step, call_lock,
  call_trylock, wake, call_unlock, start, Reach, here, next,
}

pub record IsSound (w : World) : Type 0 where
  -- A holder's key is locked, and a locked key has a holder.
  pub locked : (t : ℕ) (k : Text) → w.pc t ≡ holding k → lookup k w.shared.locks ≢ none
  pub held : (k : Text) (g : ℕ) → lookup k w.shared.locks ≡ some g → (t : ℕ) × (w.pc t ≡ holding k)
  pub single : (t u : ℕ) (k : Text) → w.pc t ≡ holding k → w.pc u ≡ holding k → t ≡ u
  -- The group of a locked key is not done, and is no other key's.
  pub live : (k : Text) (g : ℕ) → lookup k w.shared.locks ≡ some g → w.shared.finished g ≡ false
  pub known : (k : Text) (g : ℕ) → lookup k w.shared.locks ≡ some g → g < w.shared.fresh
  pub own :
      (k j : Text) (g : ℕ)
      → lookup k w.shared.locks ≡ some g
      → lookup j w.shared.locks ≡ some g
      → k ≡ j
  pub unused : (g : ℕ) → w.shared.fresh ≤ g → w.shared.finished g ≡ false
  -- A thread waits for the group of its key, or for one that is done.
  pub waits :
      (t : ℕ) (k : Text) (g : ℕ)
      → w.pc t ≡ waiting k g
      → w.shared.finished g ≡ false
      → lookup k w.shared.locks ≡ some g

start-IsSound : IsSound start
unfolding lookup
start-IsSound = record {
  locked = λ t k e. absurd (cc);
  held = λ k g e. absurd (cc);
  single = λ t u k e. absurd (cc);
  live = λ k g e. refl;
  known = λ k g e. absurd (cc);
  own = λ k j g e. absurd (cc);
  unused = λ g le. refl;
  waits = λ t k g e. absurd (cc);
}

-- A step that changes only where one thread is, neither from nor to a lock.
module _ (w : World) (t : ℕ) (key : Text) (v : IsSound w) where
  to_trying-IsSound :
      ((k : Text) → w.pc t ≢ holding k) → IsSound (record w { pc = move w.pc t (trying key) })
  to_trying-IsSound free = record {
    locked = λ u k e. ground (arith, v.locked u k);
    held = λ k g e. let (u, h) = v.held k g e in (u, ground (arith, free k));
    single = λ u s k e f. ground (arith, v.single u s k);
    live = v.live;
    known = v.known;
    own = v.own;
    unused = v.unused;
    waits = λ u k g e f. ground (arith, v.waits u k g);
  }

  to_waiting-IsSound :
      (g : ℕ)
      → w.pc t ≡ trying key
      → lookup key w.shared.locks ≡ some g
      → IsSound (record w { pc = move w.pc t (waiting key g) })
  to_waiting-IsSound g at e = record {
    locked = λ u k e'. ground (arith, v.locked u k);
    held = λ k g' e'. let (u, h) = v.held k g' e' in (u, ground arith);
    single = λ u s k e' f. ground (arith, v.single u s k);
    live = v.live;
    known = v.known;
    own = v.own;
    unused = v.unused;
    waits = λ u k g' e' f. ground (arith, v.waits u k g');
  }

  -- The world after trylock has made the lock.
  abbrev taken : World
  taken = record {
    shared = record (w.shared) {
      locks = insert key w.shared.fresh w.shared.locks;
      fresh = w.shared.fresh + 1;
    };
    pc = move w.pc t (holding key);
  }

  taken-IsSound : w.pc t ≡ trying key → lookup key w.shared.locks ≡ none → IsSound taken
  taken-IsSound at free =
      let put = λ (k : Text). lookup-insert k key w.shared.fresh w.shared.locks in
      record {
        locked = λ u k e. ground (arith, v.locked u k, put k, =~_iff key k);
        held = λ k g e. elim (Bool-cases (key =~ k)) [
          | inl same ↦ (t, ground (arith, =~_iff key k))
          | inr other ↦ let (u, h) = v.held k g (ground (arith, put k)) in (u, ground arith)
        ];
        single = λ u s k e f. ground (arith, v.single u s k, v.locked u k, v.locked s k);
        live = λ k g e. ground (arith, put k, v.live k g, v.unused g);
        known = λ k g e. ground (arith, put k, v.known k g);
        own = λ k j g e f. ground (
          arith,
          put k,
          put j,
          v.own k j g,
          v.known k g,
          v.known j g,
          =~_iff key k,
          =~_iff key j,
        );
        unused = λ g le. ground (arith, v.unused g);
        waits = λ u k g e f. ground (arith, v.waits u k g, put k, =~_iff key k);
      }

  try-IsSound : w.pc t ≡ trying key → IsSound (try_step w t key)
  unfolding try_step
  try-IsSound at = elim (Option-cases (lookup key w.shared.locks)) [
    | inr (g, e) ↦ rw (e, trylock) (to_waiting-IsSound g at e)
    | inl e ↦ rw (e, trylock) (taken-IsSound at e)
  ]

  -- The world after Unlock.
  abbrev released : ℕ → World
  released g = record {
    shared = record (w.shared) {
      locks = erase key w.shared.locks;
      finished = λ n. if g == n then true else w.shared.finished n;
    };
    pc = move w.pc t outside;
  }

  released-IsSound :
      (g : ℕ) → w.pc t ≡ holding key → lookup key w.shared.locks ≡ some g → IsSound (released g)
  released-IsSound g at e =
      let gone = λ (k : Text). lookup-erase k key w.shared.locks in
      record {
        locked = λ u k h. ground (arith, v.locked u k, v.single t u key, gone k, =~_iff key k);
        held = λ k n h.
            let (u, f) = v.held k n (ground (arith, gone k)) in
            (u, ground (arith, gone k, =~_iff key k));
        single = λ u s k h f. ground (arith, v.single u s k);
        live = λ k n h. ground (arith, gone k, v.live k n, v.own key k n, =~_iff key k);
        known = λ k n h. ground (arith, gone k, v.known k n);
        own = λ k j n h f. ground (arith, gone k, gone j, v.own k j n);
        unused = λ n le. ground (arith, v.unused n, v.known key g);
        waits = λ u k n h f. ground (arith, v.waits u k n, gone k, =~_iff key k);
      }

  unlock-IsSound :
      w.pc t ≡ holding key
      → IsSound (record { shared = unlock w.shared key; pc = move w.pc t outside })
  unfolding unlock
  unlock-IsSound at = elim (Option-cases (lookup key w.shared.locks)) [
    | inl e ↦ absurd (v.locked t key at e)
    | inr (g, e) ↦ rw (e, unlock) (released-IsSound g at e)
  ]

Step-IsSound : {w w' : World} → Step w w' → IsSound w → IsSound w'
Step-IsSound (call_lock w t key at) v = to_trying-IsSound w t key v (λ k e. ground arith)
Step-IsSound (call_trylock w t key at) v = try-IsSound w t key v at
Step-IsSound (wake w t key wg at done) v = to_trying-IsSound w t key v (λ k e. ground arith)
Step-IsSound (call_unlock w t key at) v = unlock-IsSound w t key v at

Reach-IsSound : {w : World} → Reach w → IsSound w
Reach-IsSound here = start-IsSound
Reach-IsSound (next r st) = Step-IsSound st (Reach-IsSound r)

-- However the threads' steps interleave, two threads never hold the lock of one key at a time.
pub Reach-exclusive :
    {w : World} → Reach w → (t u : ℕ) (k : Text) → w.pc t ≡ holding k → w.pc u ≡ holding k → t ≡ u
Reach-exclusive r = (Reach-IsSound r).single

-- However the threads' steps interleave, a thread that waits in Lock can go on, since the group that
-- it waits for is done, or another thread holds the lock that it waits for.
pub Reach-no_lost_wakeup :
    {w : World}
    → Reach w
    → (t : ℕ) (k : Text) (g : ℕ) → w.pc t ≡ waiting k g
    → (w.shared.finished g ≡ true) ⊎ ((u : ℕ) × (w.pc u ≡ holding k))
Reach-no_lost_wakeup {w} r t k g at = elim (Bool-cases (w.shared.finished g)) [
  | inl done ↦ inl done
  | inr undone ↦ let v = Reach-IsSound r in inr (v.held k g (v.waits t k g at undone))
]
