-- ===== src/Skills/Tests.antt =====
-- Two uses of a skill, one after the other.
use mathlib.Core.Path.{subst}
use mathlib.Core.List.{mem-cons_self}
use juicemud.Base.{
  Mem, Option, insert, none, inl, inr, Bool-cases, sym, ap, ◌∙◌, ◌=~◌, =~_iff, lookup-insert, ℕ,
  ◌≡◌, true, [], ◌∷◌, some, codes, arith, lookup, length, Assoc,
}
use juicemud.Skills.{SkillRule, Use, GlobalSkillUses, key, Numbers, earlier, recharge}
use juicemud.Skills.Tracking.{IsTracked, recharge-IsTracked}

abbrev counting : Numbers
counting = record {
  F = ℕ;
  Rng = ℕ;
  nanoseconds = λ f. f;
  one = 1;
  factor = λ now before nanos. 0;
  fnv = λ t. length t;
  seeded = λ n. n;
  int63n = λ r n. (r, 0);
  skip_float = λ r. r;
  exceeds = λ f a b r. true;
}

abbrev rules : Assoc SkillRule
rules = (codes "climb", record { duration = 3; recharge = 10 }) ∷ []

abbrev climbs : ℕ → Use
climbs at = record { user = codes "ann"; skill = codes "climb"; at = at }

abbrev other_rules : Assoc SkillRule
other_rules = (codes "climb", record { duration = 3; recharge = 100 }) ∷ []

-- After one use, under rules that are then changed.
abbrev used : GlobalSkillUses
used = record {
  heap = record { items = climbs 5 ∷ []; less = earlier counting rules };
  uses = insert (key (climbs 5)) (climbs 5) [];
}

used-IsTracked : IsTracked used
unfolding lookup
used-IsTracked = record {
  tracked = λ k u found. elim (Bool-cases (key (climbs 5) =~ k)) [
    | inl here ↦
        let at : some (climbs 5) ≡ some u =
          rw (lookup-insert k (key (climbs 5)) (climbs 5) [], here) at found in
        let it : climbs 5 ≡ u = cc in
        (
          sym (ap key it) ∙ (=~_iff (key (climbs 5)) k).0 here,
          subst (λ x. Mem x (climbs 5 ∷ [])) it mem-cons_self,
        )
    | inr other ↦
        let none_found : ◌≡◌ {A = Option Use} none (some u) =
          rw (lookup-insert k (key (climbs 5)) (climbs 5) [], other) at found in
        absurd (cc)
  ];
}

recharge-IsTracked_example :
    (g : GlobalSkillUses) × (value : ℕ) × (recharge counting other_rules 2 (climbs 40) used
      ≡ some (g, value))
    × IsTracked g
    × (lookup (key (climbs 40)) g.uses ≡ some (climbs 40))
recharge-IsTracked_example =
    recharge-IsTracked counting other_rules 2 (climbs 40) used used-IsTracked (omega arith)
