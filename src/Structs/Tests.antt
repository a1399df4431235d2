-- ===== src/Structs/Tests.antt =====
-- Keys, encodings and inspections at concrete inputs.
use juicemud.Base.{ℕ, Bool, false, [], ◌∷◌}
use juicemud.Structs.{Challenge, Description, Object, Event, Location, make_object}
use juicemud.Structs.Detection.{inspect_location, AllDescribed, inspect_location-AllDescribed}

abbrev event_at : ℕ → Event
event_at at = record {
  at = at;
  object = [];
  call = record { name = []; message = []; tag = [] };
  key = [];
}

abbrev plain : Description
plain = record { short = b'x' ∷ []; long = []; tags = []; challenges = [] }

abbrev hidden : Description
hidden = record plain { challenges = record { skill = []; level = 1; message = [] } ∷ [] }

-- One object that every viewer sees, and one that none does.
abbrev room : Location
room = record {
  container = make_object [];
  content =
      (1 ∷ [], record (make_object []) { descriptions = plain ∷ [] })
      ∷ (2 ∷ [], record (make_object []) { descriptions = hidden ∷ [] })
      ∷ [];
}

abbrev never : Challenge → Object → Object → ℕ → ℕ × Bool
never c viewer target n = (n, false)

inspect_location-AllDescribed_example :
    AllDescribed never (inspect_location never room (make_object []) 0).1.2
inspect_location-AllDescribed_example = inspect_location-AllDescribed never room (make_object []) 0
