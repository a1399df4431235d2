-- ===== src/Lang/Tests.antt =====
-- Three exits, and nobody, in a list.
use juicemud.Base.{◌≡◌, refl, true, [], ◌∷◌, codes, is_empty}
use juicemud.Lang.{enumerate, sprintf, sprintf_from}
use juicemud.Lang.Listing.{enumerate-listed, has_no_verb, listed}

enumerate-listed_example :
    enumerate
      (record { form = codes "[%s]"; separator = []; operator = codes "or"; active = true })
      (codes "a" ∷ codes "b" ∷ codes "c" ∷ [])
    ≡ codes "[a], [b], or [c] are"
unfolding has_no_verb is_empty listed
enumerate-listed_example =
    enumerate-listed (codes "[") (codes "]") [] (codes "or") true
      (codes "a" ∷ codes "b" ∷ codes "c" ∷ []) refl refl

no_arguments : sprintf (codes "%s of 100%%") [] ≡ codes "%!s(MISSING) of 100%"
unfolding sprintf_from
no_arguments = refl
