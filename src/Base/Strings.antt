-- ===== src/Base/Strings.antt =====
-- Go strings as lists of bytes, with the string functions of the standard library that are used.
use Prim.Native.Nat.{ℕ}
use Prim.Native.Char.{code}
use Prim.Native.String.{String}
use mathlib.Core.Path.{◌≡◌, refl}
use mathlib.Core.Logic.{◌↔◌}
use mathlib.Core.Bool.{Bool, true, false, ◌&&◌}
use mathlib.Core.List.{List, [], ◌∷◌}
use native.Mathlib.Omega.{arith}
use juicemud.Base.Tests.{◌==◌}

abbrev pub Text : Type 0
Text = List ℕ

-- A literal's bytes (the source's literals are ASCII).
abbrev pub codes : String → Text
codes String.[] = []
codes (String.◌∷◌ c s) = code c ∷ codes s

infix 50 ◌=~◌
-- Go's `==` on strings.
unfoldable pub ◌=~◌ : Text → Text → Bool
[] =~ [] = true
[] =~ (d ∷ t) = false
(c ∷ s) =~ [] = false
(c ∷ s) =~ (d ∷ t) = c == d && s =~ t

unfoldable pub is_empty : Text → Bool
is_empty [] = true
is_empty (_ ∷ _) = false

pub =~_iff : (s t : Text) → ((s =~ t) ≡ true) ↔ (s ≡ t)
unfolding ◌=~◌
=~_iff [] [] = ground arith
=~_iff [] (d ∷ t) = ground arith
=~_iff (c ∷ s) [] = ground arith
=~_iff (c ∷ s) (d ∷ t) = ground (arith, =~_iff s t)

pub =~_self : (s : Text) → (s =~ s) ≡ true
=~_self s = (=~_iff s s).1 refl
