-- ===== src/Game/Refused.antt =====
-- A user who is no wizard has no use of the commands of wizards.
use juicemud.Base.{
  ℕ, ◌≡◌, ◌≢◌, refl, sym, ap, ◌∙◌, Bool, true, false, List, [], ◌∷◌, Option, none, some, Text,
  Error, Result, ok, err, Bool-cases, inl, inr, if◌then◌else◌, is_empty,
}
use juicemud.Base.Act.{
  Act, ◌>>=◌, continue, pure, raise, Left, Keeps, Keeps-bind, Keeps-pure, Keeps-if,
}
use juicemud.Structs.{Object, Description, Exit, objects_short, exits_short}
use juicemud.Files.{User, Group, is_member, row, fault}
use juicemud.Files.Access.{user_access_to_group, user_access-refused}
use juicemud.Files.Sources.{Store}
use juicemud.Objects.{Movement}
use juicemud.Game.{Parts, World}
use juicemud.Game.Storage.{Refresh}
use juicemud.Game.Start.{wizards_group}
use juicemud.Game.Stable.{load_refreshed-Keeps, load_neighbourhood-Keeps}
use juicemud.Game.Safety.{files-IsStable}
use juicemud.Game.Keeps.{level-Keeps}
use juicemud.Game.Run.{level}
use juicemud.Game.Terminal.{
  with_world, in_world, print, connected_user, connection_object, describe_long, sorted, inspected,
  show_description, here, show_siblings, show_exits,
}
use juicemud.Game.Commands.{
  C, Command, is_named, first_word, print_all, group_names, groups_command, look_command, commands,
  reported, run_command, is_wizard, named_command, run_commands,
}

module _ (p : Parts) (files : Store p.sql p.tkrzw) where
  -- The files, users and groups are these.
  abbrev pub SameFiles : C p → Type 0
  SameFiles c = (c.world).files ≡ files

  print-Keeps : (t : Text) → Keeps SameFiles (print p t)
  unfolding print
  print-Keeps t = record { at = λ c h. h }

  print_all-Keeps : (ts : List Text) → Keeps SameFiles (print_all p ts)
  print_all-Keeps [] = Keeps-pure tt
  print_all-Keeps (t ∷ ts) = Keeps-bind _ _ (print-Keeps t) (λ _. print_all-Keeps ts)

  connected_user-Keeps : Keeps SameFiles (connected_user p)
  unfolding connected_user
  connected_user-Keeps = record { at = λ c h. go c h c.user }
    where
      go :
          (c : C p)
          → SameFiles c
          → (u : Option User)
          → Left SameFiles (elim u [ none ↦ some (c, err Error.panic) | some u ↦ some (c, ok u) ])
      go c h none = h
      go c h (some u) = h

  with_world-Left :
      {A : Type 0} (c : C p) (o : Option (World p × Result A))
      → Left (λ w. w.files ≡ files) o
      → Left SameFiles (with_world p c o)
  with_world-Left c none h = tt
  with_world-Left c (some (w, r)) h = h

  in_world-Keeps :
      {A : Type 0} (m : Act (World p) A)
      → Keeps (λ w. w.files ≡ files) m
      → Keeps SameFiles (in_world p m)
  unfolding in_world
  in_world-Keeps m k = record { at = λ c h. with_world-Left c (m c.world) (k.at c.world h) }

  groups_command-Keeps : (line : Text) → Keeps SameFiles (groups_command p line)
  unfolding groups_command
  groups_command-Keeps line = Keeps-bind _ _ connected_user-Keeps (λ u.
      Keeps-bind _ _ (record { at = λ c h. h })
        (λ gs. Keeps-bind _ _ (print-Keeps _) (λ _. print_all-Keeps (sorted p (group_names p gs)))))

  show_description-Keeps : (d : Option Description) → Keeps SameFiles (show_description p d)
  show_description-Keeps none = Keeps-pure tt
  show_description-Keeps (some d) =
      Keeps-bind _ _ (print-Keeps d.short)
        (λ _. Keeps-bind _ _ (print-Keeps []) (λ _. print-Keeps d.long))

  here-Keeps : (o : Option (List Text)) → Keeps SameFiles (here p o)
  unfolding raise
  here-Keeps none = record { at = λ c h. h }
  here-Keeps (some ts) = Keeps-bind _ _ (print-Keeps []) (λ _. print-Keeps _)

  show_siblings-Keeps : (os : List Object) → Keeps SameFiles (show_siblings p os)
  show_siblings-Keeps [] = Keeps-pure tt
  show_siblings-Keeps (o ∷ os) = here-Keeps (objects_short (o ∷ os))

  show_exits-Keeps : (es : List Exit) → Keeps SameFiles (show_exits p es)
  show_exits-Keeps [] = Keeps-pure tt
  show_exits-Keeps (e ∷ es) =
      Keeps-bind _ _ (print-Keeps []) (λ _. print-Keeps (exits_short (e ∷ es)))

  module _ (fuel : ℕ) where
    abbrev pub handler : Movement → Act (World p) (Unit {0})
    handler = (level p fuel).0

    abbrev pub ref : Refresh p
    ref = (level p fuel).1

    look_command-Keeps : (line : Text) → Keeps SameFiles (look_command p handler ref line)
    unfolding look_command describe_long connection_object inspected
    look_command-Keeps line =
        let stable = files-IsStable p files in
        let kept = level-Keeps p (λ w. w.files ≡ files) stable fuel in
        Keeps-bind _ _
          (Keeps-bind _ _ connected_user-Keeps (λ u.
            in_world-Keeps _
              (load_refreshed-Keeps p stable handler ref (kept.0) (kept.1) u.object)))
          (λ obj.
            Keeps-bind _ _
              (in_world-Keeps _
                (load_neighbourhood-Keeps p stable handler ref (kept.0) (kept.1) obj))
              (λ n.
                Keeps-bind _ _ (in_world-Keeps (inspected p n obj) (record { at = λ w h. h }))
                  (λ seen. Keeps-bind _ _ (show_description-Keeps (seen.0)) (λ _.
                    Keeps-bind _ _ (show_siblings-Keeps (seen.2))
                      (λ _. show_exits-Keeps (seen.1))))))

  -- The commands that are not for wizards.
  abbrev pub plain : List (Command p) → List (Command p)
  plain [] = []
  plain (cmd ∷ cmds) = let rest = plain cmds in if cmd.wizard then rest else cmd ∷ rest

  plain-keep :
      (cmd : Command p) (cmds : List (Command p))
      → cmd.wizard ≡ false
      → plain (cmd ∷ cmds) ≡ cmd ∷ plain cmds
  plain-keep cmd cmds w = rw w refl

  -- Those commands leave the files, users and groups as they are.
  abbrev pub AllKeep : List (Command p) → Type 0
  AllKeep [] = Unit
  AllKeep (cmd ∷ cmds) =
      (cmd.wizard ≡ false → (line : Text) → Keeps SameFiles (cmd.f line)) × AllKeep cmds

  reported-Left :
      (o : Option (C p × Result (Unit {0}))) → Left SameFiles o → Left SameFiles (reported p o)
  reported-Left none h = tt
  reported-Left (some (c, ok u)) h = h
  reported-Left (some (c, err e)) h = h

  run_command-Keeps :
      (cmd : Command p) (line : Text)
      → Keeps SameFiles (cmd.f line)
      → Keeps SameFiles (run_command p cmd line)
  unfolding run_command
  run_command-Keeps cmd line k = record { at = λ c h. reported-Left (cmd.f line c) (k.at c h) }

  named_command-Keeps :
      (user : User) (cmd : Command p) (line : Text)
      → Keeps SameFiles (cmd.f line)
      → Keeps SameFiles (named_command p user cmd line)
  unfolding named_command
  named_command-Keeps user cmd line k =
      Keeps-bind _ _ (record { at = λ c h. h })
        (λ b. Keeps-if b _ _ (run_command-Keeps cmd line k) (Keeps-pure tt))

  continue-same :
      {A B : Type 0} (o : Option (C p × Result A)) (f g : A → Act (C p) B)
      → Left SameFiles o
      → ((a : A) (c : C p) → SameFiles c → f a c ≡ g a c)
      → continue o f ≡ continue o g
  continue-same none f g h same = refl
  continue-same (some (c, ok a)) f g h same = same a c h
  continue-same (some (c, err e)) f g h same = refl

  module _ (user : User)
      (denied : user_access_to_group p.sql files.sql user wizards_group ≡ ok false) where
    denied_at : (c : C p) → SameFiles c → is_wizard p user c ≡ ok false
    denied_at c h = ap (λ f. user_access_to_group p.sql f.sql user wizards_group) h ∙ denied

    run_commands-plain :
        (cmds : List (Command p)) (line : Text) (c : C p)
        → AllKeep cmds
        → SameFiles c
        → run_commands p user cmds line c ≡ run_commands p user (plain cmds) line c
    unfolding run_commands named_command ◌>>=◌ pure
    run_commands-plain [] line c all h = refl
    run_commands-plain (cmd ∷ cmds) line c (keeps, all) h = elim (Bool-cases cmd.wizard) [
      | inl w ↦ elim (Bool-cases (is_named p (first_word p line) cmd.names)) [
        | inl n ↦ rw (n, w, denied_at c h) (run_commands-plain cmds line c all h)
        | inr n ↦ rw (n, w) (run_commands-plain cmds line c all h)
      ]
      | inr w ↦
          continue-same
            ((if is_named p (first_word p line) cmd.names
                then named_command p user cmd line
                else pure tt)
              c)
            _ _
            ((Keeps-if (is_named p (first_word p line) cmd.names) (named_command p user cmd line)
                (pure tt) (named_command-Keeps user cmd line (keeps w line)) (Keeps-pure tt)).at
              c h)
            (λ _ c' h'. run_commands-plain cmds line c' all h')
          ∙ ap (λ cs. run_commands p user cs line c) (sym (plain-keep cmd cmds w))
    ]

    no_wizard : {b : Bool} → b ≡ true → b ≡ false → ⊥
    no_wizard h k = cc

    commands-AllKeep : (fuel : ℕ) → AllKeep (commands p (handler fuel) (ref fuel))
    commands-AllKeep fuel = (
      (λ _ line. groups_command-Keeps line),
      (
        (λ w _. absurd (no_wizard refl w)),
        (
          (λ w _. absurd (no_wizard refl w)),
          (
            (λ w _. absurd (no_wizard refl w)),
            (
              (λ w _. absurd (no_wizard refl w)),
              (
                (λ _ line. look_command-Keeps fuel line),
                (
                  (λ w _. absurd (no_wizard refl w)),
                  ((λ w _. absurd (no_wizard refl w)), ((λ w _. absurd (no_wizard refl w)), tt)),
                ),
              ),
            ),
          ),
        ),
      ),
    )

-- If the table has a group of wizards, of which the user is no member by the table of members, the user
-- is no owner, and the driver does not fail to look up the membership, then the user can run no command
-- of wizards: whatever line is read, it does what it would do if the only commands were groups, l and
-- look.
pub run_commands-refused :
    (p : Parts) (fuel : ℕ) (user : User) (line : Text) (c : C p) (wizards : Group)
    → user.owner ≡ false
    → p.sql.select_group_by_name ((c.world).files).sql wizards_group ≡ row wizards
    → is_member (p.sql.members ((c.world).files).sql) user.id wizards.id ≡ false
    → ((n : ℕ) → p.sql.select_member ((c.world).files).sql user.id wizards.id ≢ fault n)
    → run_commands p user
        (commands p (handler p (c.world).files fuel) (ref p (c.world).files fuel))
        line
        c
      ≡ run_commands p user
          (plain p
            (c.world).files
            (commands p (handler p (c.world).files fuel) (ref p (c.world).files fuel)))
          line
          c
unfolding is_empty
run_commands-refused p fuel user line c wizards no_owner there no_member works =
    let denied : user_access_to_group p.sql ((c.world).files).sql user wizards_group ≡ ok false =
      user_access-refused p.sql ((c.world).files).sql user wizards_group wizards refl no_owner there
        no_member works in
    run_commands-plain p (c.world).files user denied
      (commands p (handler p (c.world).files fuel) (ref p (c.world).files fuel)) line c
      (commands-AllKeep p (c.world).files user denied fuel) refl
