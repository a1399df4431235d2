-- ===== src/Js/Registry.antt =====
-- The callbacks that a run reports, and the functions that it would call for them.
use mathlib.Core.Path.{subst}
use juicemud.Base.{
  ◌≡◌, Bool, true, ◌&&◌, List, [], ◌∷◌, Option, none, some, Text, ◌=~◌, =~_self, Result, ok, err,
  Assoc, lookup, insert, has, lookup-insert, lookup-erase, arith, Bool-cases, inl, inr, codes,
}
use juicemud.Js.{
  V8, Script, ends, calls, Reply, thrown, Host, RunContext, register, add_tags, tags_of,
  add_js_callback, remove_js_callback,
}
use juicemud.Js.Running.{State, dispatch, exec, outer}

-- Some tag is set.
abbrev pub HasTag : Assoc Bool → Type 0
HasTag tags = (tag : Text) × (has tag tags ≡ true)

has-insert : (j k : Text) (m : Assoc Bool) → has j m ≡ true → has j (insert k true m) ≡ true
has-insert j k m h = ground (arith, lookup-insert j k true m)

add_tags-HasTag :
    (v : V8) (tags : List Text) (m : Assoc Bool) → HasTag m → HasTag (add_tags v tags m)
unfolding add_tags
add_tags-HasTag v [] m h = h
add_tags-HasTag v (tag ∷ tags) m (t, h) =
    add_tags-HasTag v tags (insert tag true m) (t, has-insert t tag m h)

has-insert_self : (k : Text) (m : Assoc Bool) → has k (insert k true m) ≡ true
has-insert_self k m = ground (arith, lookup-insert k k true m, =~_self k)

tags_of-HasTag : (v : V8) (tags : List Text) → HasTag (tags_of v tags)
unfolding tags_of add_tags
tags_of-HasTag v [] = ([], has-insert_self [] [])
tags_of-HasTag v (tag ∷ tags) =
    add_tags-HasTag v tags (insert tag true []) (tag, has-insert_self tag [])

module _ (v : V8) where
  open v use {Machine, Value, Function}

  -- The event types of the tags are those of the functions, and each has a tag.
  pub record IsInStep (r : RunContext v) : Type 0 where
    pub same : (k : Text) → has k r.callbacks ≡ has k r.functions
    pub tagged : (k : Text) (tags : Assoc Bool) → lookup k r.callbacks ≡ some tags → HasTag tags

  register-IsInStep :
      (event_type : Text) (tags : Result (List Text)) (f : Result Function) (r : RunContext v)
      → IsInStep r
      → IsInStep (register v event_type tags f r).0
  register-IsInStep event_type (err e) f r h = h
  register-IsInStep event_type (ok tags) (err e) r h = h
  register-IsInStep event_type (ok tags) (ok f) r h = record {
    same = λ k. ground (
      arith,
      lookup-insert k event_type (tags_of v tags) r.callbacks,
      lookup-insert k event_type f r.functions,
      h.same k,
    );
    tagged = λ k set found. elim (Bool-cases (event_type =~ k)) [
      | inl t ↦
          let at : some (tags_of v tags) ≡ some set =
            rw (lookup-insert k event_type (tags_of v tags) r.callbacks, t) at found in
          let same : tags_of v tags ≡ set = ground (arith, at) in
          subst HasTag same (tags_of-HasTag v tags)
      | inr t ↦
          h.tagged k set (rw (lookup-insert k event_type (tags_of v tags) r.callbacks, t) at found)
    ];
  }

  add_js_callback-IsInStep :
      (m : Machine) (args : List Value) (r : RunContext v)
      → IsInStep r
      → IsInStep (add_js_callback v m args r).0
  unfolding add_js_callback
  add_js_callback-IsInStep m (a ∷ b ∷ c ∷ []) r h =
      elim (Bool-cases (v.is_string a && v.is_array b && v.is_function c)) [
        | inl t ↦ rw (t, add_js_callback) (register-IsInStep _ _ _ r h)
        | inr t ↦ rw (t, add_js_callback) h
      ]
  add_js_callback-IsInStep m [] r h = h
  add_js_callback-IsInStep m (a ∷ []) r h = h
  add_js_callback-IsInStep m (a ∷ b ∷ []) r h = h
  add_js_callback-IsInStep m (a ∷ b ∷ c ∷ d ∷ args) r h = h

  remove_js_callback-IsInStep :
      (args : List Value) (r : RunContext v) → IsInStep r → IsInStep (remove_js_callback v args r).0
  unfolding remove_js_callback
  remove_js_callback-IsInStep (a ∷ []) r h = elim (Bool-cases (v.is_string a)) [
    | inl t ↦
        rw (t, remove_js_callback)
          (record {
            same = λ k. ground (
              arith,
              lookup-erase k (v.string a) r.callbacks,
              lookup-erase k (v.string a) r.functions,
              h.same k,
            );
            tagged = λ k set found. elim (Bool-cases (v.string a =~ k)) [
              | inl gone ↦ absurd (
                  let bad : ◌≡◌ {A = Option (Assoc Bool)} none (some set) =
                    rw (lookup-erase k (v.string a) r.callbacks, gone) at found in
                  cc)
              | inr kept ↦
                  h.tagged k set (rw (lookup-erase k (v.string a) r.callbacks, kept) at found)
            ];
          })
    | inr t ↦ rw (t, remove_js_callback) h
  ]
  remove_js_callback-IsInStep [] r h = h
  remove_js_callback-IsInStep (a ∷ b ∷ args) r h = h

  module _ (W : Type 0) where
    -- What holds of the RunContext that is left, where one is.
    abbrev pub Leaves : {X : Type 0} → Option (State v W × X) → Type 0
    Leaves none = Unit
    Leaves (some ((w, r), x)) = IsInStep r

    outer-Leaves :
        (o : Option (W × Reply Value)) (r : RunContext v) → IsInStep r → Leaves (outer v W o r)
    outer-Leaves none r h = tt
    outer-Leaves (some (w, reply)) r h = h

    dispatch-Leaves :
        (callbacks : Assoc (Host v W)) (println : List Text → W → W) (m : Machine) (name : Text)
        (args : List Value) (s : State v W)
        → IsInStep s.1
        → Leaves (dispatch v W callbacks println m name args s)
    unfolding dispatch
    dispatch-Leaves callbacks println m name args (w, r) h =
        elim (Bool-cases (name =~ codes "log")) [
          | inl t ↦ rw (t, dispatch) h
          | inr t ↦ elim (Bool-cases (name =~ codes "removeCallback")) [
            | inl u ↦ rw (t, u, dispatch) (remove_js_callback-IsInStep args r h)
            | inr u ↦ elim (Bool-cases (name =~ codes "addCallback")) [
              | inl x ↦ rw (t, u, x, dispatch) (add_js_callback-IsInStep m args r h)
              | inr x ↦ rw (t, u, x, dispatch) (found (lookup name callbacks))
            ]
          ]
        ]
      where
        found :
            (o : Option (Host v W))
            → Leaves {X = Reply Value} (elim o [
              | none ↦ some ((w, r), thrown (codes "is not defined"))
              | some f ↦ outer v W (f args w) r
            ])
        found none = h
        found (some f) = outer-Leaves (f args w) r h

    module _ (callbacks : Assoc (Host v W)) (println : List Text → W → W) (m : Machine) where
      -- Whatever a script does, the events that it leaves with tags are those that it leaves a
      -- function for, and each has a tag, if this was so before: what Run reports as callbacks is what
      -- it can call.
      pub exec-Leaves :
          (script : Script Machine Value) (s : State v W)
          → IsInStep s.1
          → Leaves (exec v W (dispatch v W callbacks println m) script s)
      unfolding exec
      exec-Leaves (ends m' r) s h = h
      exec-Leaves (calls name args k) s h =
          go (dispatch v W callbacks println m name args s)
            (dispatch-Leaves callbacks println m name args s h)
            (λ reply s' h'. exec-Leaves (k reply) s' h')
        where
          go :
              (o : Option (State v W × Reply Value))
              → Leaves o
              → ((reply : Reply Value) (s' : State v W)
                  → IsInStep s'.1
                  → Leaves (exec v W (dispatch v W callbacks println m) (k reply) s'))
              → Leaves (elim o [
                | none ↦ none
                | some (s', reply) ↦ exec v W (dispatch v W callbacks println m) (k reply) s'
              ])
          go none l rest = tt
          go (some (s', reply)) l rest = rest reply s' l
