-- ===== src/Game/Harmless.antt =====
-- The functions that a script may call keep what the single changes keep.
use juicemud.Base.{
  ℕ, ◌≡◌, ◌&&◌, [], ◌∷◌, Option, none, some, Text, Result, ok, err, Assoc, Bool-cases, inl, inr,
  codes, lookup,
}
use juicemud.Base.Act.{Act, Left, Keeps, Keeps-bind}
use juicemud.Structs.{Object}
use juicemud.Objects.{Movement}
use juicemud.Js.{Reply, Host}
use juicemud.Js.Effects.{HostLeft, IsHarmless, AllHarmless, insert-AllHarmless}
use juicemud.Game.{Parts, World, Codec, SkillRule}
use juicemud.Game.Emit.{emit_json, after, default_reaction_delay}
use juicemud.Game.Storage.{Refresh}
use juicemud.Game.Stable.{IsStable, emit_json-Keeps, load_refreshed-Keeps, load_neighbourhood-Keeps}
use juicemud.Game.Scripts.{
  State, copy_to, after_copy, add_get_set_pair, get_skills, set_skills, get_skill, found_skill,
  set_skill, set_rule, no_rule, add_global_callbacks, told, milliseconds, set_timeout, set_interval,
  emit, neighbourhood_told, load_json, get_neighbourhood, add_object_callbacks, throw,
}

module _ (p : Parts) (P : World p → Type 0) (stable : IsStable p P) where
  -- The predicate, of the world that a script runs in.
  abbrev pub Q : State p → Type 0
  Q s = P (s.0)

  abbrev Harmless : Host p.v8 (State p) → Type 0
  Harmless f = IsHarmless p.v8 (State p) Q f

  abbrev HLeft : Option (State p × Reply p.v8.Value) → Type 0
  HLeft o = HostLeft p.v8 (State p) Q o

  module _ (m : p.v8.Machine) where
    after_copy-Left :
        {A : Type 0} (put : A → State p → State p)
        → ((a : A) (s : State p) → Q s → Q (put a s))
        → (r : A × Result (Unit {0})) (s : State p) → Q s
        → HLeft (after_copy p m put r s)
    after_copy-Left put keeps (a, ok u) s h = keeps a s h
    after_copy-Left put keeps (a, err e) s h = keeps a s h

    copy_to-Left :
        {A : Type 0} (codec : Codec A) (get : State p → A) (put : A → State p → State p)
        → ((a : A) (s : State p) → Q s → Q (put a s))
        → (src : p.v8.Value) (s : State p) → Q s
        → HLeft (copy_to p m codec get put src s)
    unfolding copy_to
    copy_to-Left codec get put keeps src s h = go (p.v8.json_stringify m src)
      where
        go :
            (r : Result Text)
            → HLeft (elim r [
              | err e ↦ throw p (codes "trying to copy") s
              | ok json ↦ after_copy p m put (codec.unmarshal json (get s)) s
            ])
        go (err e) = h
        go (ok json) = after_copy-Left put keeps (codec.unmarshal json (get s)) s h

    set_skills-Harmless : Harmless (set_skills p m)
    unfolding set_skills
    set_skills-Harmless (a ∷ b ∷ []) s h =
        elim (Bool-cases (p.v8.is_string a && p.v8.is_object b)) [
          | inl t ↦
              rw (t, set_skills)
                (copy_to-Left p.rules (λ t. (t.0).skills)
                  (λ x t. (record (t.0) { skills = x }, t.1)) (λ x r k. stable.ruled (r.0) x k) b s
                  h)
          | inr t ↦ rw (t, set_skills) h
        ]
    set_skills-Harmless [] s h = h
    set_skills-Harmless (a ∷ []) s h = h
    set_skills-Harmless (a ∷ b ∷ c ∷ args) s h = h

    get_skills-Harmless : Harmless (get_skills p m)
    unfolding get_skills
    get_skills-Harmless [] s h = h
    get_skills-Harmless (a ∷ args) s h = h

    get_skill-Harmless : Harmless (get_skill p m)
    unfolding get_skill
    get_skill-Harmless (a ∷ []) s h = elim (Bool-cases (p.v8.is_string a)) [
      | inl t ↦ rw (t, get_skill) (found (lookup (p.v8.string a) (s.0).skills))
      | inr t ↦ rw (t, get_skill) h
    ]
      where
        found : (o : Option SkillRule) → HLeft (found_skill p m o s)
        found none = h
        found (some rule) = h
    get_skill-Harmless [] s h = h
    get_skill-Harmless (a ∷ b ∷ args) s h = h

    set_skill-Harmless : Harmless (set_skill p m)
    unfolding set_skill
    set_skill-Harmless (a ∷ b ∷ []) (w, o) h =
        elim (Bool-cases (p.v8.is_string a && p.v8.is_object b)) [
          | inl t ↦ rw (t, set_skill) (go (p.v8.json_stringify m b))
          | inr t ↦ rw (t, set_skill) h
        ]
      where
        put : (name : Text) (r : SkillRule × Result (Unit {0})) → HLeft (set_rule p m name r (w, o))
        put name (rule, err e) = h
        put name (rule, ok u) = stable.ruled w _ h

        go :
            (r : Result Text)
            → HLeft (elim r [
              | err e ↦ throw p (codes "trying to convert") (w, o)
              | ok json ↦ set_rule p m (p.v8.string a) (p.rule.unmarshal json (no_rule p m)) (w, o)
            ])
        go (err e) = h
        go (ok json) = put (p.v8.string a) (p.rule.unmarshal json (no_rule p m))
    set_skill-Harmless [] s h = h
    set_skill-Harmless (a ∷ []) s h = h
    set_skill-Harmless (a ∷ b ∷ c ∷ args) s h = h

    told-Left :
        (x : Option (World p × Result (Unit {0}))) (o : Object) → Left P x → HLeft (told p m x o)
    told-Left none o h = tt
    told-Left (some (w, ok u)) o h = h
    told-Left (some (w, err e)) o h = h

    -- An event that a script puts in the queue, if what it says can be written.
    emitted-Left :
        (at : ℕ) (id name : Text) (w : World p) (o : Object) (r : Result Text)
        → P w
        → HLeft (elim r [
          | err e ↦ throw p (codes "trying to serialize") (w, o)
          | ok message ↦ told p m (emit_json p at id name message w) o
        ])
    emitted-Left at id name w o (err e) h = h
    emitted-Left at id name w o (ok message) h =
        told-Left (emit_json p at id name message w) o
          ((emit_json-Keeps p stable at id name message).at w h)

    set_timeout-Harmless : Harmless (set_timeout p m)
    unfolding set_timeout
    set_timeout-Harmless (a ∷ b ∷ c ∷ []) (w, o) h = elim (Bool-cases (p.v8.is_string b)) [
      | inl t ↦
          rw (t, set_timeout)
            (emitted-Left (after p (milliseconds p m (p.v8.integer a)) w) o.id (p.v8.string b) w o
              (p.v8.json_stringify m c) h)
      | inr t ↦ rw (t, set_timeout) h
    ]
    set_timeout-Harmless [] s h = h
    set_timeout-Harmless (a ∷ []) s h = h
    set_timeout-Harmless (a ∷ b ∷ []) s h = h
    set_timeout-Harmless (a ∷ b ∷ c ∷ d ∷ args) s h = h

    emit-Harmless : Harmless (emit p m)
    unfolding emit
    emit-Harmless (a ∷ b ∷ c ∷ []) (w, o) h =
        elim (Bool-cases (p.v8.is_string a && p.v8.is_string b)) [
          | inl t ↦
              rw (t, emit)
                (emitted-Left (after p default_reaction_delay w) (p.v8.string a) (p.v8.string b) w o
                  (p.v8.json_stringify m c) h)
          | inr t ↦ rw (t, emit) h
        ]
    emit-Harmless [] s h = h
    emit-Harmless (a ∷ []) s h = h
    emit-Harmless (a ∷ b ∷ []) s h = h
    emit-Harmless (a ∷ b ∷ c ∷ d ∷ args) s h = h

    abbrev Harmlessly : Assoc (Host p.v8 (State p)) → Type 0
    Harmlessly callbacks = AllHarmless p.v8 (State p) Q callbacks

    none_found :
        (name : Text) (f : Host p.v8 (State p))
        → lookup {V = Host p.v8 (State p)} name [] ≡ some f
        → ⊥
    unfolding lookup
    none_found name f found = cc

    pub add_global_callbacks-Harmlessly : Harmlessly (add_global_callbacks p m [])
    unfolding add_global_callbacks
    add_global_callbacks-Harmlessly = insert-AllHarmless p.v8 (State p) Q _ _ _ set_skill-Harmless (
        insert-AllHarmless p.v8 (State p) Q _ _ _ get_skill-Harmless (
          insert-AllHarmless p.v8 (State p) Q _ _ _ set_skills-Harmless (
            insert-AllHarmless p.v8 (State p) Q _ _ _ get_skills-Harmless
              (λ name f found. absurd (none_found name f found)))))

    add_get_set_pair-Harmlessly :
        {A : Type 0} (name : Text) (codec : Codec A) (get : Object → A) (put : A → Object → Object)
        (callbacks : Assoc (Host p.v8 (State p)))
        → Harmlessly callbacks
        → Harmlessly (add_get_set_pair p m name codec get put callbacks)
    unfolding add_get_set_pair
    add_get_set_pair-Harmlessly name codec get put callbacks all =
        insert-AllHarmless p.v8 (State p) Q _ _ _ setter
          (insert-AllHarmless p.v8 (State p) Q _ _ _ (λ args s h. h) all)
      where
        setter : Harmless (λ args s. elim args [
          | [] ↦ throw p (codes "function takes 1 argument") s
          | a ∷ rest ↦ elim rest [
            | [] ↦ copy_to p m codec (λ t. get (t.1)) (λ x t. (t.0, put x (t.1))) a s
            | b ∷ more ↦ throw p (codes "function takes 1 argument") s
          ]
        ])
        setter [] s h = h
        setter (a ∷ []) s h =
            copy_to-Left codec (λ t. get (t.1)) (λ x t. (t.0, put x (t.1))) (λ x r k. k) a s h
        setter (a ∷ b ∷ args) s h = h

    module _ (handler : Movement → Act (World p) (Unit {0})) (ref : Refresh p)
        (handled : (x : Movement) → Keeps P (handler x))
        (refreshed : (o : Object) → Keeps P (ref o)) where
      neighbourhood_told-Left :
          (x : Option (World p × Result Text)) (o : Object)
          → Left P x
          → HLeft (neighbourhood_told p m handler ref x o)
      neighbourhood_told-Left none o h = tt
      neighbourhood_told-Left (some (w, ok json)) o h = h
      neighbourhood_told-Left (some (w, err e)) o h = h

      load_json-Keeps : (id : Text) → Keeps P (load_json p m handler ref id)
      load_json-Keeps id =
          Keeps-bind _ _ (load_refreshed-Keeps p stable handler ref handled refreshed id) (λ o.
            Keeps-bind _ _ (load_neighbourhood-Keeps p stable handler ref handled refreshed o)
              (λ n. record { at = λ w h. h }))

      get_neighbourhood-Harmless : Harmless (get_neighbourhood p m handler ref)
      unfolding get_neighbourhood
      get_neighbourhood-Harmless args (w, o) h =
          neighbourhood_told-Left (load_json p m handler ref o.id w) o
            ((load_json-Keeps o.id).at w h)

      pub add_object_callbacks-Harmlessly :
          (callbacks : Assoc (Host p.v8 (State p)))
          → Harmlessly callbacks
          → Harmlessly (add_object_callbacks p m handler ref callbacks)
      unfolding add_object_callbacks set_interval
      add_object_callbacks-Harmlessly callbacks all =
          insert-AllHarmless p.v8 (State p) Q _ _ _ get_neighbourhood-Harmless (
            insert-AllHarmless p.v8 (State p) Q _ _ _ emit-Harmless (
              insert-AllHarmless p.v8 (State p) Q _ _ _ (λ args s h. h)
                (insert-AllHarmless p.v8 (State p) Q _ _ _ set_timeout-Harmless (
                  add_get_set_pair-Harmlessly _ _ _ _ _ (
                    add_get_set_pair-Harmlessly _ _ _ _ _ (
                      add_get_set_pair-Harmlessly _ _ _ _ _ (
                        add_get_set_pair-Harmlessly _ _ _ _ _ (
                          add_get_set_pair-Harmlessly _ _ _ _ _
                            (add_get_set_pair-Harmlessly _ _ _ _ _ all)))))))))
