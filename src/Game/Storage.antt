-- ===== src/Game/Storage.antt =====
-- Objects with the scripts that bring them up to date: LoadObject, LoadObjects, maybeRefresh and
-- StoreObject of storage/storage.go, and loadLocation, loadNeighbourhood and the handler of movements
-- of game/processing.go. A Refresh runs the script of an object.
use juicemud.Base.{
  Bool, List, [], ◌∷◌, Option, none, some, Text, Result, ok, err, Assoc, insert, if◌then◌else◌, ltb,
}
use juicemud.Base.Act.{Act, ◌>>=◌, ◌>>◌, pure, lift, reads, runs}
use juicemud.Dbm.{success, not_found, failure}
use juicemud.Structs.{Object, Exit, Location, Neighbourhood}
use juicemud.Files.Sources.{source_mod_time}
use juicemud.Objects.{Movement, store_batch, movement_of, load_object}
use juicemud.Game.{Parts, World}
use juicemud.Game.Emit.{
  after, default_reaction_delay, emit_json_to_neighbourhood_if, movement_event_type,
}

module _ (p : Parts) where
  -- The type Refresh: it gives the object as it changed it.
  abbrev pub Refresh : Type 0
  Refresh = Object → Act (World p) Object

  abbrev objects_left : World p → p.tkrzw.Db × Result (Unit {0}) → World p × Result (Unit {0})
  objects_left w (db, r) = (record w { objects = db }, r)

  module _ (handler : Movement → Act (World p) (Unit {0})) where
    -- What StoreObject does with the movement.
    abbrev pub report : Option Movement → Act (World p) (Unit {0})
    report none = pure tt
    report (some m) = handler m

    -- StoreObject, over the world
    unfoldable pub store_object : Option Text → Object → Act (World p) (Unit {0})
    store_object claimed object = do
      runs λ w. objects_left w (store_batch p.tkrzw p.object_bytes w.objects claimed object)
      report (movement_of claimed object)

    -- maybeRefresh, with a Refresh: the object as it is then.
    unfoldable pub maybe_refresh : Refresh → Object → Act (World p) Object
    unfolding store_object
    maybe_refresh ref obj = do
      t ← λ w. some (w, source_mod_time p.sql p.tkrzw w.files.mod_times obj.source_path)
      let refreshed : Act (World p) Object = do
        run ← ref obj
        store_object (some obj.location) (record run { source_mod_time = t })
        pure (record run { source_mod_time = t })
      if ltb obj.source_mod_time t then refreshed else pure obj

    -- LoadObject, with a Refresh
    unfoldable pub load_refreshed : Refresh → Text → Act (World p) Object
    unfolding maybe_refresh
    load_refreshed ref id = do
      res ← λ w. some (w, load_object p.tkrzw p.object_bytes w.objects id)
      maybe_refresh ref res

    -- The records of GetMulti: tkrzw leaves out the keys that it fails for.
    unfoldable pub get_multi : p.tkrzw.Db → Assoc Bool → Result (Assoc Object)
    get_multi db [] = ok []
    get_multi db ((key, b) ∷ keys) =
        let (bytes, status) = p.tkrzw.get db key in
        let rest = get_multi db keys in
        elim status [
          | not_found ↦ rest
          | failure n ↦ rest
          | success ↦ elim (p.object_bytes.unmarshal bytes) [
            | err e ↦ err e
            | ok object ↦ elim rest [ err e ↦ err e | ok objects ↦ ok ((key, object) ∷ objects) ]
          ]
        ]

    -- The loop of LoadObjects
    unfoldable pub refresh_all : Refresh → Assoc Object → Act (World p) (Assoc Object)
    unfolding maybe_refresh
    refresh_all ref [] = pure []
    refresh_all ref ((key, obj) ∷ objects) = do
      refreshed ← maybe_refresh ref obj
      rest ← refresh_all ref objects
      pure ((key, refreshed) ∷ rest)

    -- LoadObjects, with a Refresh
    unfoldable pub load_objects : Refresh → Assoc Bool → Act (World p) (Assoc Object)
    unfolding get_multi refresh_all
    load_objects ref ids = do res ← λ w. some (w, get_multi w.objects ids); refresh_all ref res

    -- loadLocation
    unfoldable pub load_location : Refresh → Text → Act (World p) Location
    unfolding load_refreshed load_objects
    load_location ref id = do
      container ← load_refreshed ref id
      content ← load_objects ref container.content
      pure (record { container = container; content = content })

    -- The loop of loadNeighbourhood over the exits
    unfoldable pub load_neighbours :
        Refresh → List Exit → Assoc Location → Act (World p) (Assoc Location)
    unfolding load_location
    load_neighbours ref [] neighbours = pure neighbours
    load_neighbours ref (exit ∷ exits) neighbours = do
      neighbour ← load_location ref exit.destination
      load_neighbours ref exits (insert exit.destination neighbour neighbours)

    -- loadNeighbourhood
    unfoldable pub load_neighbourhood : Refresh → Object → Act (World p) Neighbourhood
    unfolding load_neighbours
    load_neighbourhood ref object = do
      self ← load_location ref object.id
      location ← load_location ref object.location
      neighbours ← load_neighbours ref location.container.exits []
      pure (record { self = self; location = location; neighbours = neighbours })

    -- emitMovementToNeighbourhood
    unfoldable pub emit_movement_to_neighbourhood : Refresh → Movement → Act (World p) (Unit {0})
    unfolding load_neighbourhood
    emit_movement_to_neighbourhood ref m = do
      n ← load_neighbourhood ref m.object
      json ← lift (p.movement m)
      at ← reads (after p default_reaction_delay)
      emit_json_to_neighbourhood_if p at n movement_event_type json
