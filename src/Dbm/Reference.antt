-- ===== src/Dbm/Reference.antt =====
-- What a batch of Hash.Proc should do: compute every output from the records as they were, and, if
-- no processor fails, write the outputs in order.
use juicemud.Base.{
  ◌≡◌, List, [], ◌∷◌, Option, none, some, Text, if◌then◌else◌, Result, ok, err, ◌>>=◌,
}
use juicemud.Dbm.{Bytes, View, update, Proc, bytes_equal}

-- The outputs, or the first error.
unfoldable pub eval : View → List Proc → Result (List (Option Bytes))
eval v [] = ok []
eval v (p ∷ ps) = do o ← p.proc p.key (v p.key); os ← eval v ps; ok (o ∷ os)

-- A record that is written again with what it holds (nil counts as empty) stays as it is.
unfoldable pub settle : Option Bytes → Option Bytes → Option Bytes
settle old none = none
settle old (some b) = if bytes_equal old b then old else some b

unfoldable pub write_all : View → List Proc → List (Option Bytes) → View
write_all v (p ∷ ps) (o ∷ os) = write_all (update v p.key (settle (v p.key) o)) ps os
write_all v _ _ = v

-- What Hash.Proc has done, by what the processors return.
abbrev pub Committed :
    View → List Proc → Result (List (Option Bytes)) → View → Result (Unit {0}) → Type 0
Committed v ps (ok outs) v' r = (r ≡ ok tt) × ((k : Text) → v' k ≡ write_all v ps outs k)
Committed v ps (err e) v' r = (r ≡ err e) × ((k : Text) → v' k ≡ v k)
