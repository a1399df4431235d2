-- ===== src/Game/Emit.antt =====
-- game/processing.go: emitJSON and its kin, which put events into the queue.
use juicemud.Base.{ℕ, suc, ◌+◌, ◌%◌, ◌^◌, List, [], ◌∷◌, some, Text, codes, Result, if◌then◌else◌}
use juicemud.Base.Act.{Act, ◌>>=◌, ◌>>◌, pure, lift}
use juicemud.Structs.{Object, Event, Neighbourhood, has_callback, neighbourhood_all}
use juicemud.Queue.{push}
use juicemud.Game.{Parts, World}

abbrev pub connected_event_type : Text
connected_event_type = codes "connected"

abbrev pub movement_event_type : Text
movement_event_type = codes "movement"

abbrev pub emit_event_tag : Text
emit_event_tag = codes "emit"

-- 100 milliseconds
abbrev pub default_reaction_delay : ℕ
default_reaction_delay = 100000000

module _ (p : Parts) where
  -- Queue.After
  abbrev pub after : ℕ → World p → ℕ
  after delay w = (w.time + delay + w.queue.offset) % 2 ^ 64

  abbrev pub event_of : ℕ → Text → Text → Text → Event
  event_of at id name json = record {
    at = at;
    object = id;
    call = record { name = name; message = json; tag = emit_event_tag };
    key = [];
  }

  -- emitJSON
  unfoldable pub emit_json : ℕ → Text → Text → Text → Act (World p) (Unit {0})
  emit_json at id name json w =
      let (queue, r) = push p.tree w.counter (event_of at id name json) w.queue in
      some (record w { queue = queue; counter = suc w.counter }, r)

  -- emitAny, with what Marshal gives for the message
  pub emit_any : ℕ → Text → Text → Result Text → Act (World p) (Unit {0})
  unfolding emit_json
  emit_any at id name message = do b ← lift message; emit_json at id name b

  -- emitJSONIf
  unfoldable pub emit_json_if : ℕ → Object → Text → Text → Act (World p) (Unit {0})
  unfolding emit_json
  emit_json_if at object name json =
      if has_callback object name emit_event_tag then emit_json at object.id name json else pure tt

  -- The loop of emitJSONToNeighbourhoodIf
  unfoldable pub emit_json_to_all :
      ℕ → List (Text × Object) → Text → Text → Act (World p) (Unit {0})
  unfolding emit_json_if
  emit_json_to_all at [] name json = pure tt
  emit_json_to_all at ((k, obj) ∷ objects) name json = do
    emit_json_if at obj name json
    emit_json_to_all at objects name json

  -- emitJSONToNeighbourhoodIf
  unfoldable pub emit_json_to_neighbourhood_if :
      ℕ → Neighbourhood → Text → Text → Act (World p) (Unit {0})
  unfolding emit_json_to_all
  emit_json_to_neighbourhood_if at n name json = emit_json_to_all at (neighbourhood_all n) name json
