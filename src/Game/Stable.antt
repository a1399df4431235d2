-- ===== src/Game/Stable.antt =====
-- Predicates on the world that reading objects, storing them and putting events in the queue keep.
use juicemud.Base.{ℕ, suc, List, [], ◌∷◌, Option, none, some, Text, Assoc, ltb, insert}
use juicemud.Base.Act.{
  Act, Keeps, Keeps-pure, Keeps-lift, Keeps-reads, Keeps-runs, Keeps-if, Keeps-bind,
}
use juicemud.Structs.{Object, Exit, Location, neighbourhood_all, has_callback}
use juicemud.Queue.{push}
use juicemud.Objects.{Movement}
use juicemud.Fanout.{Fanout}
use juicemud.Game.{Parts, World, SkillRule}
use juicemud.Game.Emit.{
  event_of, emit_json, emit_json_if, emit_json_to_all, emit_json_to_neighbourhood_if, after,
  emit_event_tag, default_reaction_delay, movement_event_type,
}
use juicemud.Game.Storage.{
  Refresh, report, store_object, maybe_refresh, load_refreshed, refresh_all, load_objects,
  load_location, load_neighbours, load_neighbourhood, emit_movement_to_neighbourhood,
}

module _ (p : Parts) where
  -- The predicate is kept by each single thing that a script, or what runs it, changes.
  pub record IsStable (P : World p → Type 0) : Type 0 where
    pub emitted :
        (w : World p) (at : ℕ) (id name json : Text)
        → P w
        → P (record w {
          queue = (push p.tree w.counter (event_of p at id name json) w.queue).0;
          counter = suc w.counter;
        })
    pub stored : (w : World p) (db : p.tkrzw.Db) → P w → P (record w { objects = db })
    pub ruled : (w : World p) (rules : Assoc SkillRule) → P w → P (record w { skills = rules })
    pub printed :
        (w : World p) (consoles : Assoc (Option Fanout))
        → P w
        → P (record w { consoles = consoles })
    pub moved : (w : World p) (ms : List p.v8.Machine) → P w → P (record w { machines = ms })

  module _ {P : World p → Type 0} (stable : IsStable P) where
    pub emit_json-Keeps : (at : ℕ) (id name json : Text) → Keeps P (emit_json p at id name json)
    unfolding emit_json
    emit_json-Keeps at id name json = record { at = λ w h. stable.emitted w at id name json h }

    emit_json_to_all-Keeps :
        (at : ℕ) (objects : List (Text × Object)) (name json : Text)
        → Keeps P (emit_json_to_all p at objects name json)
    unfolding emit_json_to_all emit_json_if
    emit_json_to_all-Keeps at [] name json = Keeps-pure tt
    emit_json_to_all-Keeps at ((k, obj) ∷ objects) name json =
        Keeps-bind _ _
          (Keeps-if (has_callback obj name emit_event_tag) _ _ (emit_json-Keeps at obj.id name json)
            (Keeps-pure tt))
          (λ _. emit_json_to_all-Keeps at objects name json)

    module _ (handler : Movement → Act (World p) (Unit {0})) (ref : Refresh p)
        (handled : (m : Movement) → Keeps P (handler m))
        (refreshed : (o : Object) → Keeps P (ref o)) where
      report-Keeps : (m : Option Movement) → Keeps P (report p handler m)
      report-Keeps none = Keeps-pure tt
      report-Keeps (some m) = handled m

      pub store_object-Keeps :
          (claimed : Option Text) (object : Object)
          → Keeps P (store_object p handler claimed object)
      unfolding store_object
      store_object-Keeps claimed object =
          Keeps-bind _ _ (Keeps-runs _ λ w h. stable.stored w _ h) (λ _. report-Keeps _)

      maybe_refresh-Keeps : (o : Object) → Keeps P (maybe_refresh p handler ref o)
      unfolding maybe_refresh
      maybe_refresh-Keeps o =
          Keeps-bind _ _ (record { at = λ w h. h })
            (λ t.
              Keeps-if (ltb o.source_mod_time t) _ _
                (Keeps-bind _ _ (refreshed o)
                  (λ run. Keeps-bind _ _ (store_object-Keeps _ _) (λ _. Keeps-pure _)))
                (Keeps-pure o))

      pub load_refreshed-Keeps : (id : Text) → Keeps P (load_refreshed p handler ref id)
      unfolding load_refreshed
      load_refreshed-Keeps id = Keeps-bind _ _ (record { at = λ w h. h }) maybe_refresh-Keeps

      refresh_all-Keeps : (os : Assoc Object) → Keeps P (refresh_all p handler ref os)
      unfolding refresh_all
      refresh_all-Keeps [] = Keeps-pure []
      refresh_all-Keeps ((k, o) ∷ os) =
          Keeps-bind _ _ (maybe_refresh-Keeps o)
            (λ _. Keeps-bind _ _ (refresh_all-Keeps os) (λ _. Keeps-pure _))

      load_location-Keeps : (id : Text) → Keeps P (load_location p handler ref id)
      unfolding load_location load_objects
      load_location-Keeps id = Keeps-bind _ _ (load_refreshed-Keeps id) (λ c.
          Keeps-bind _ _ (Keeps-bind _ _ (record { at = λ w h. h }) refresh_all-Keeps)
            (λ _. Keeps-pure _))

      load_neighbours-Keeps :
          (exits : List Exit) (ns : Assoc Location)
          → Keeps P (load_neighbours p handler ref exits ns)
      unfolding load_neighbours
      load_neighbours-Keeps [] ns = Keeps-pure ns
      load_neighbours-Keeps (e ∷ exits) ns =
          Keeps-bind _ _ (load_location-Keeps e.destination)
            (λ n. load_neighbours-Keeps exits (insert e.destination n ns))

      pub load_neighbourhood-Keeps :
          (object : Object) → Keeps P (load_neighbourhood p handler ref object)
      unfolding load_neighbourhood
      load_neighbourhood-Keeps object = Keeps-bind _ _ (load_location-Keeps object.id) (λ _.
          Keeps-bind _ _ (load_location-Keeps object.location)
            (λ l. Keeps-bind _ _ (load_neighbours-Keeps l.container.exits []) (λ _. Keeps-pure _)))

      pub emit_movement-Keeps :
          (m : Movement) → Keeps P (emit_movement_to_neighbourhood p handler ref m)
      unfolding emit_movement_to_neighbourhood emit_json_to_neighbourhood_if
      emit_movement-Keeps m = Keeps-bind _ _ (load_neighbourhood-Keeps m.object) (λ n.
          Keeps-bind _ _ (Keeps-lift (p.movement m)) (λ json.
            Keeps-bind _ _ (Keeps-reads (after p default_reaction_delay))
              (λ at. emit_json_to_all-Keeps at (neighbourhood_all n) movement_event_type json)))
