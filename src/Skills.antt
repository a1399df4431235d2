-- ===== src/Skills.antt =====
-- game/skills/skills.go: which uses of skills are remembered, and how a check is seeded. Floating-point
-- numbers, math, hash/fnv and math/rand are parameters. Times and durations are in nanoseconds, after
-- 1970 and not negative.
pub mod Tracking
mod Tests
use juicemud.Base.{
  ℕ, zero, suc, ◌+◌, ◌/◌, Bool, true, false, ◌&&◌, List, [], ◌∷◌, ◌++◌, Option, none, some, Text,
  codes, if◌then◌else◌, ltb, leb, ◌==◌, Assoc, lookup, insert, erase,
}
use juicemud.Structs.{Float32}
use juicemud.Structs.Keys.{put_uint64}
use juicemud.Heap.{Heap, push, pop, peek, ◌>>=◌}

-- The type Skill, of which there is one for each name.
pub record SkillRule : Type 0 where
  pub duration : Float32
  pub recharge : Float32

pub record Use : Type 0 where
  pub user : Text
  pub skill : Text
  pub at : ℕ

pub record Application : Type 0 where
  pub use_of : Use
  pub target : Text
  pub level : Float32
  pub challenge : Float32

-- The type globalSkillUses, without its mutex.
pub record GlobalSkillUses : Type 0 where
  pub heap : Heap Use
  pub uses : Assoc Use

-- The zero value of Use.
abbrev pub no_use : Use
no_use = record { user = []; skill = []; at = 0 }

-- Use.key
unfoldable pub key : Use → Text
key s = s.user ++ b'.' ∷ s.skill

-- What the source takes from Go's library: durations in nanoseconds, the factor of a recharge from the
-- two times and the nanoseconds, a generator from its seed, and the comparison at the end of Check.
pub record Numbers : Type 1 where
  pub F : Type 0
  pub Rng : Type 0
  pub nanoseconds : Float32 → ℕ
  pub one : F
  pub factor : ℕ → ℕ → ℕ → F
  pub fnv : Text → ℕ
  pub seeded : ℕ → Rng
  pub int63n : Rng → ℕ → Rng × ℕ
  pub skip_float : Rng → Rng
  pub exceeds : F → Float32 → Float32 → Rng → Bool

module _ (n : Numbers) (rules : Assoc SkillRule) where
  -- Use.Recharge
  unfoldable pub recharge_time : Use → ℕ
  recharge_time s = elim (lookup s.skill rules) [
    | none ↦ s.at
    | some rule ↦ s.at + n.nanoseconds rule.recharge
  ]

  -- The order of the heap.
  unfoldable pub earlier : Use → Use → Bool
  unfolding recharge_time
  earlier a b = ltb (recharge_time a) (recharge_time b)

  -- The source of randomness before the first draw.
  abbrev seed : Use → Text → ℕ → n.Rng
  seed s target step = n.seeded (n.fnv (s.user ++ target ++ s.skill ++ put_uint64 step))

  -- `none` is the panic of a division by zero.
  abbrev drawn : Use → ℕ → ℕ → n.Rng × ℕ → n.Rng
  drawn s duration step (rng, offset) =
      if (s.at + offset) / duration / 3 == step then rng else n.skip_float rng

  -- Use.RNG
  unfoldable pub rng : Use → Text → Option n.Rng
  rng s target = elim (lookup s.skill rules) [
    | none ↦ some (seed s target s.at)
    | some rule ↦
        let duration = n.nanoseconds rule.duration in
        let step = s.at / duration / 3 in
        if duration == 0
        then none
        else some (drawn s duration step (n.int63n (seed s target step) duration))
  ]

  -- The loop of recharge on one entry: it is forgotten, unless its key was used again since.
  unfoldable pub forget : Use → Assoc Use → Assoc Use
  unfolding key
  forget oldest uses = elim (lookup (key oldest) uses) [
    | none ↦ uses
    | some latest ↦ if leb latest.at oldest.at then erase (key oldest) uses else uses
  ]

  -- The loop of recharge, on fuel; `none` is also a panic of the heap.
  unfoldable pub expire : ℕ → Use → GlobalSkillUses → Option GlobalSkillUses
  unfolding forget recharge_time
  expire zero s g = none
  expire (suc fuel) s g =
      let (oldest, found) = peek no_use g.heap in
      let next : Option GlobalSkillUses = pop no_use g.heap >>= λ r.
      expire fuel s (record { heap = r.1; uses = forget oldest g.uses }) in
      if found && ltb (recharge_time oldest) s.at then next else some g

  unfoldable pub recharge_value : GlobalSkillUses → Use → n.F
  unfolding key
  recharge_value g s = elim (lookup (key s) g.uses) [
    | none ↦ n.one
    | some old ↦ elim (lookup s.skill rules) [
      | none ↦ n.one
      | some rule ↦ n.factor s.at old.at (n.nanoseconds rule.recharge)
    ]
  ]

  -- The comparison of the heap reads Skills whenever it is called: it is that of the rules as they are.
  unfoldable pub under_rules : GlobalSkillUses → GlobalSkillUses
  unfolding earlier
  under_rules g = record g { heap = record (g.heap) { less = earlier } }

  -- globalSkillUses.recharge; the rules may be others at every call, but do not change during one.
  unfoldable pub recharge : ℕ → Use → GlobalSkillUses → Option (GlobalSkillUses × n.F)
  unfolding expire recharge_value under_rules
  recharge fuel s g = expire fuel s (under_rules g) >>= λ g'. push g'.heap s >>= λ heap.
      some (record { heap = heap; uses = insert (key s) s g'.uses }, recharge_value g' s)

  -- Application.Check
  unfoldable pub check : ℕ → Application → GlobalSkillUses → Option (GlobalSkillUses × Bool)
  unfolding recharge rng
  check fuel a g = recharge fuel a.use_of g >>= λ r.
      rng a.use_of a.target >>= λ source. some (r.0, n.exceeds (r.1) a.level a.challenge source)
