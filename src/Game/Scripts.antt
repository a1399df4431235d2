-- ===== src/Game/Scripts.antt =====
-- game/processing.go: the functions of Go that a script may call: addGetSetPair, addGlobalCallbacks and
-- addObjectCallbacks. What an exception says is cut short.
use juicemud.Base.{
  ℕ, ◌*◌, ◌%◌, ◌^◌, ◌&&◌, [], ◌∷◌, ◌++◌, Option, none, some, Text, codes, Result, ok, err, Assoc,
  insert, lookup, if◌then◌else◌,
}
use juicemud.Base.Act.{Act, ◌>>=◌}
use juicemud.Structs.{Object}
use juicemud.Objects.{Movement}
use juicemud.Js.{Reply, returned, thrown, Host}
use juicemud.Game.{Parts, World, Codec, SkillRule}
use juicemud.Game.Emit.{emit_json, after, default_reaction_delay}
use juicemud.Game.Storage.{Refresh, load_refreshed, load_neighbourhood}

module _ (p : Parts) where
  abbrev pub V : Type 0
  V = p.v8.Value

  -- What a script of an object reads and changes.
  abbrev pub State : Type 0
  State = World p × Object

  abbrev pub throw : Text → State → Option (State × Reply V)
  throw t s = some (s, thrown t)

  abbrev pub nothing : State → Option (State × Reply V)
  nothing s = some (s, returned none)

  -- `rc.JSFromGo` of what Marshal gives; the machine that it parses on makes no difference.
  abbrev pub js_from_go : p.v8.Machine → Result Text → Reply V
  js_from_go m (err e) = thrown (codes "trying to convert")
  js_from_go m (ok json) = elim (p.v8.json_parse m json) [
    | err e ↦ thrown (codes "trying to convert")
    | ok value ↦ returned (some value)
  ]

  module _ (m : p.v8.Machine) where
    abbrev pub after_copy :
        {A : Type 0}
        → (A → State → State)
        → A × Result (Unit {0})
        → State
        → Option (State × Reply V)
    after_copy put (a, ok u) s = nothing (put a s)
    after_copy put (a, err e) s = throw (codes "trying to copy") (put a s)

    -- `rc.Copy(dst, src)`, and what its callers do then
    unfoldable pub copy_to :
        {A : Type 0}
        → Codec A
        → (State → A)
        → (A → State → State)
        → V
        → State
        → Option (State × Reply V)
    copy_to codec get put src s = elim (p.v8.json_stringify m src) [
      | err e ↦ throw (codes "trying to copy") s
      | ok json ↦ after_copy put (codec.unmarshal json (get s)) s
    ]

    -- addGetSetPair
    unfoldable pub add_get_set_pair :
        {A : Type 0}
        → Text
        → Codec A
        → (Object → A)
        → (A → Object → Object)
        → Assoc (Host p.v8 State)
        → Assoc (Host p.v8 State)
    unfolding copy_to
    add_get_set_pair name codec get put callbacks =
        insert (codes "set" ++ name)
          (λ args s. elim args [
            | [] ↦ throw (codes "function takes 1 argument") s
            | a ∷ rest ↦ elim rest [
              | [] ↦ copy_to codec (λ t. get (t.1)) (λ x t. (t.0, put x (t.1))) a s
              | b ∷ more ↦ throw (codes "function takes 1 argument") s
            ]
          ])
          (insert (codes "get" ++ name)
            (λ args s. some (s, js_from_go m (codec.marshal (get (s.1))))) callbacks)

    -- The functions of addGlobalCallbacks
    unfoldable pub get_skills : Host p.v8 State
    get_skills [] s = some (s, js_from_go m (p.rules.marshal (s.0).skills))
    get_skills (a ∷ args) s = throw (codes "getSkills takes no arguments") s

    -- setSkills copies the second of its arguments.
    unfoldable pub set_skills : Host p.v8 State
    unfolding copy_to
    set_skills (a ∷ b ∷ []) s =
        if p.v8.is_string a && p.v8.is_object b
        then copy_to p.rules (λ t. (t.0).skills) (λ x t. (record (t.0) { skills = x }, t.1)) b s
        else throw (codes "setSkills takes [string, Object] arguments") s
    set_skills args s = throw (codes "setSkills takes [string, Object] arguments") s

    abbrev pub found_skill : Option SkillRule → State → Option (State × Reply V)
    found_skill none s = nothing s
    found_skill (some rule) s = some (s, js_from_go m (p.rule.marshal rule))

    unfoldable pub get_skill : Host p.v8 State
    get_skill (a ∷ []) s =
        if p.v8.is_string a
        then found_skill (lookup (p.v8.string a) (s.0).skills) s
        else throw (codes "getSkills takes [string] arguments") s
    get_skill args s = throw (codes "getSkills takes [string] arguments") s

    abbrev pub no_rule : SkillRule
    no_rule = record { duration = 0; recharge = 0 }

    abbrev pub set_rule : Text → SkillRule × Result (Unit {0}) → State → Option (State × Reply V)
    set_rule name (rule, err e) s = throw (codes "trying to convert") s
    set_rule name (rule, ok u) (w, o) = nothing (record w { skills = insert name rule w.skills }, o)

    unfoldable pub set_skill : Host p.v8 State
    set_skill (a ∷ b ∷ []) s =
        if p.v8.is_string a && p.v8.is_object b
        then elim (p.v8.json_stringify m b) [
          | err e ↦ throw (codes "trying to convert") s
          | ok json ↦ set_rule (p.v8.string a) (p.rule.unmarshal json no_rule) s
        ]
        else throw (codes "setSkill takes [string, Object] arguments") s
    set_skill args s = throw (codes "setSkill takes [string, Object] arguments") s

    -- addGlobalCallbacks
    unfoldable pub add_global_callbacks : Assoc (Host p.v8 State) → Assoc (Host p.v8 State)
    add_global_callbacks callbacks = insert (codes "setSkill") set_skill (
        insert (codes "getSkill") get_skill
          (insert (codes "setSkills") set_skills (insert (codes "getSkills") get_skills callbacks)))

    -- How an action that a script asks for is reported to it.
    abbrev pub told : Option (World p × Result (Unit {0})) → Object → Option (State × Reply V)
    told none o = none
    told (some (w, ok u)) o = some ((w, o), returned none)
    told (some (w, err e)) o = some ((w, o), thrown (codes "trying to enqueue"))

    -- An int64 of milliseconds in nanoseconds
    abbrev pub milliseconds : ℕ → ℕ
    milliseconds n = n * 1000000 % 2 ^ 64

    unfoldable pub set_timeout : Host p.v8 State
    unfolding emit_json
    set_timeout (a ∷ b ∷ c ∷ []) (w, o) =
        if p.v8.is_string b
        then elim (p.v8.json_stringify m c) [
          | err e ↦ throw (codes "trying to serialize") (w, o)
          | ok message ↦
              told
                (emit_json p (after p (milliseconds (p.v8.integer a)) w) o.id (p.v8.string b)
                  message w)
                o
        ]
        else throw (codes "setTimeout takes [int, string, any] arguments") (w, o)
    set_timeout args s = throw (codes "setTimeout takes [int, string, any] arguments") s

    unfoldable pub set_interval : Host p.v8 State
    set_interval args s = nothing s

    unfoldable pub emit : Host p.v8 State
    unfolding emit_json
    emit (a ∷ b ∷ c ∷ []) (w, o) =
        if p.v8.is_string a && p.v8.is_string b
        then elim (p.v8.json_stringify m c) [
          | err e ↦ throw (codes "trying to serialize") (w, o)
          | ok message ↦
              told
                (emit_json p (after p default_reaction_delay w) (p.v8.string a) (p.v8.string b)
                  message w)
                o
        ]
        else throw (codes "emit takes [string, string, any] arguments") (w, o)
    emit args s = throw (codes "emit takes [string, string, any] arguments") s

    module _ (handler : Movement → Act (World p) (Unit {0})) (ref : Refresh p) where
      abbrev pub neighbourhood_told :
          Option (World p × Result Text) → Object → Option (State × Reply V)
      neighbourhood_told none o = none
      neighbourhood_told (some (w, ok json)) o = some ((w, o), js_from_go m (ok json))
      neighbourhood_told (some (w, err e)) o = some ((w, o), thrown (codes "trying to load Object"))

      abbrev pub load_json : Text → Act (World p) Text
      load_json id = do
        object ← load_refreshed p handler ref id
        n ← load_neighbourhood p handler ref object
        λ w. some (w, p.neighbourhood n)

      -- getNeighbourhood
      unfoldable pub get_neighbourhood : Host p.v8 State
      unfolding load_refreshed load_neighbourhood
      get_neighbourhood args (w, o) = neighbourhood_told (load_json o.id w) o

      -- addObjectCallbacks
      unfoldable pub add_object_callbacks : Assoc (Host p.v8 State) → Assoc (Host p.v8 State)
      add_object_callbacks callbacks = insert (codes "getNeighbourhood") get_neighbourhood (
          insert (codes "emit") emit (
            insert (codes "setInterval") set_interval (
              insert (codes "setTimeout") set_timeout (
                add_get_set_pair (codes "SourcePath") p.text (λ o. o.source_path)
                  (λ x o. record o { source_path = x })
                  (add_get_set_pair (codes "Exits") p.exits (λ o. o.exits)
                    (λ x o. record o { exits = x })
                    (add_get_set_pair (codes "Descriptions") p.descriptions (λ o. o.descriptions)
                      (λ x o. record o { descriptions = x })
                      (add_get_set_pair (codes "Skills") p.object_skills (λ o. o.skills)
                        (λ x o. record o { skills = x })
                        (add_get_set_pair (codes "Content") p.content (λ o. o.content)
                          (λ x o. record o { content = x })
                          (add_get_set_pair (codes "Location") p.text (λ o. o.location)
                            (λ x o. record o { location = x }) callbacks)))))))))
