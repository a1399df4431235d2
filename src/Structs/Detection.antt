-- ===== src/Structs/Detection.antt =====
-- Detect and Inspect: what a viewer notices. A skill check changes the record of skill uses, so it
-- is a parameter that passes a state on: Challenge.Check of the viewer against the target.
use juicemud.Base.{
  ◌≡◌, refl, Bool, true, false, List, [], ◌∷◌, Option, none, some, Text, if◌then◌else◌,
}
use juicemud.Structs.{Challenge, Description, Exit, Object, Location, objects_short}

module _ {S : Type 0} (check : Challenge → Object → Object → S → S × Bool) where
  -- The inner function of Detect: the first failure ends it.
  pub passes : List Challenge → Object → Object → S → S × Bool
  passes [] viewer target s = (s, true)
  passes (c ∷ cs) viewer target s =
      let (s', met) = check c viewer target s in
      let rest = passes cs viewer target s' in if met then rest else (s', false)

  -- Descriptions.Detect
  pub detect : List Description → Object → Object → S → S × Option Description
  detect [] target viewer s = (s, none)
  detect (d ∷ ds) target viewer s =
      let (s', all_met) = passes d.challenges viewer target s in
      let rest = detect ds target viewer s' in if all_met then (s', some d) else rest

  -- The loop of Object.Inspect over the exits.
  pub inspect_exits : List Exit → Object → Object → S → S × List Exit
  inspect_exits [] o viewer s = (s, [])
  inspect_exits (e ∷ es) o viewer s =
      let (s', desc) = detect e.descriptions o viewer s in
      let (s'', rest) = inspect_exits es o viewer s' in
      elim desc [ none ↦ (s'', rest) | some d ↦ (s'', record e { descriptions = d ∷ [] } ∷ rest) ]

  -- Object.Inspect
  pub inspect : Object → Object → S → S × (Option Description × List Exit)
  unfolding inspect_exits detect passes
  inspect o viewer s =
      let (s', desc) = detect o.descriptions o viewer s in
      let (s'', exits) = inspect_exits o.exits o viewer s' in (s'', (desc, exits))

  -- The loop of Location.Inspect over the content.
  pub inspect_siblings : List (Text × Object) → Object → S → S × List Object
  unfolding inspect
  inspect_siblings [] viewer s = (s, [])
  inspect_siblings ((k, cont) ∷ rest) viewer s =
      let (s', (desc, _)) = inspect cont viewer s in
      let (s'', siblings) = inspect_siblings rest viewer s' in
      elim desc [
        | none ↦ (s'', siblings)
        | some d ↦ (s'', record cont { descriptions = d ∷ [] } ∷ siblings)
      ]

  -- Location.Inspect
  pub inspect_location : Location → Object → S → S × (Option Description × List Exit × List Object)
  unfolding inspect_siblings
  inspect_location l viewer s =
      let (s', siblings) = inspect_siblings l.content viewer s in
      let (s'', (desc, exits)) = inspect l.container viewer s' in (s'', (desc, exits, siblings))

  -- Every object has a description to show.
  abbrev pub AllDescribed : List Object → Type 0
  AllDescribed os = (ts : List Text) × (objects_short os ≡ some ts)

  AllDescribed-cons :
      (desc : Option Description) (cont : Object) (s : S) (os : List Object)
      → AllDescribed os
      → let out : S × List Object = elim desc [
        | none ↦ (s, os)
        | some d ↦ (s, record cont { descriptions = d ∷ [] } ∷ os)
      ] in
        AllDescribed out.1
  unfolding objects_short
  AllDescribed-cons none cont s os h = h
  AllDescribed-cons (some d) cont s os (ts, e) = (d.short ∷ ts, rw e)

  -- What is shown of a location's content never indexes an empty list of descriptions: Objects.Short
  -- returns for whatever Location.Inspect found.
  pub inspect_location-AllDescribed :
      (l : Location) (viewer : Object) (s : S) → AllDescribed (inspect_location l viewer s).1.2
  unfolding inspect_location objects_short
  inspect_location-AllDescribed l viewer s = siblings l.content viewer s
    where
      siblings :
          (content : List (Text × Object)) (viewer : Object) (s : S)
          → AllDescribed (inspect_siblings content viewer s).1
      siblings [] viewer s = ([], refl)
      siblings ((k, cont) ∷ rest) viewer s =
          let (s', (desc, _)) = inspect cont viewer s in
          AllDescribed-cons desc cont (inspect_siblings rest viewer s').0 _
            (siblings rest viewer s')
