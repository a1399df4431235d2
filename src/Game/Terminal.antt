-- ===== src/Game/Terminal.antt =====
-- game/connection.go: the type Connection, and what it asks at the terminal: SelectExec, SelectReturn
-- and describeLong. The terminal is the lines that it will give, after which it gives io.EOF, and the
-- lines printed so far, without the prompts of the terminal itself. Loops are on fuel.
use juicemud.Base.{
  ℕ, zero, suc, Bool, true, false, List, [], ◌∷◌, ◌++◌, Option, none, some, Text, ◌=~◌, codes,
  Result, ok, err, eof, panic, Assoc, lookup, if◌then◌else◌, to_lower,
}
use juicemud.Base.Act.{Act, ◌>>=◌, ◌>>◌, pure, raise}
use juicemud.Structs.{Object, Description, Exit, Neighbourhood, join, objects_short, exits_short}
use juicemud.Structs.Keys.{lex_lt}
use juicemud.Structs.Detection.{inspect_location}
use juicemud.Files.{User}
use juicemud.Objects.{Movement}
use juicemud.Lang.{enumerate}
use juicemud.Game.{Parts, World}
use juicemud.Game.Storage.{Refresh, load_refreshed, load_neighbourhood}

module _ (p : Parts) where
  -- The type Connection, with the game and the terminal. `caller` is the user that the context of the
  -- session is authenticated as, and `environments` stands for envByObjectID.
  pub record Connection : Type 0 where
    pub world : World p
    pub input : List Text
    pub output : List Text
    pub user : Option User
    pub caller : Option User
    pub environments : Assoc Bool
    pub term : ℕ

  -- An action on the world alone.
  abbrev pub with_world :
      {A : Type 0} → Connection → Option (World p × Result A) → Option (Connection × Result A)
  with_world c none = none
  with_world c (some (w, r)) = some (record c { world = w }, r)

  unfoldable pub in_world : {A : Type 0} → Act (World p) A → Act Connection A
  in_world m c = with_world c (m c.world)

  -- `fmt.Fprintln(c.term, line)`
  unfoldable pub print : Text → Act Connection (Unit {0})
  print line c = some (record c { output = c.output ++ line ∷ [] }, ok tt)

  unfoldable pub read_line : Act Connection Text
  read_line c = elim (c.input) [
    | [] ↦ some (c, err eof)
    | line ∷ lines ↦ some (record c { input = lines }, ok line)
  ]

  -- A loop that ends when its body gives something.
  unfoldable pub until : {A : Type 0} → ℕ → Act Connection (Option A) → Act Connection A
  until zero body c = none
  until (suc fuel) body c = (body >>= λ o. elim o [ none ↦ until fuel body | some a ↦ pure a ]) c

  abbrev insert_name : Text → List Text → List Text
  insert_name n [] = n ∷ []
  insert_name n (m ∷ ms) =
      let rest = insert_name n ms in if lex_lt n m then n ∷ m ∷ ms else m ∷ rest

  -- `sort.Sort` of names
  unfoldable pub sorted : List Text → List Text
  sorted [] = []
  sorted (n ∷ ns) = insert_name n (sorted ns)

  abbrev pub names : {A : Type 0} → Assoc A → List Text
  names [] = []
  names ((n, a) ∷ options) = n ∷ names options

  abbrev pub choices : List Text → Text
  choices options =
      enumerate
        (record { form = codes "[%s]"; separator = []; operator = codes "or"; active = false })
        (sorted options)

  abbrev ended : Option (Act Connection (Unit {0})) → Act Connection (Option (Unit {0}))
  ended none = pure none
  ended (some cmd) = cmd >> pure (some tt)

  -- SelectExec
  unfoldable pub select_exec : ℕ → Assoc (Act Connection (Unit {0})) → Act Connection (Unit {0})
  unfolding until print read_line
  select_exec fuel options =
      until fuel do print (choices (names options)); line ← read_line; ended (lookup line options)

  -- The inner loop of SelectReturn: `strings.EqualFold` is equality but for case.
  unfoldable pub equal_fold : Text → List Text → Option Text
  equal_fold line [] = none
  equal_fold line (option ∷ options) =
      let rest = equal_fold line options in
      if to_lower line =~ to_lower option then some option else rest

  -- SelectReturn
  unfoldable pub select_return : ℕ → Text → List Text → Act Connection Text
  unfolding until print read_line equal_fold
  select_return fuel prompt options = until fuel do
    print (prompt ++ codes " [" ++ join (codes "/") options ++ codes "]")
    line ← read_line
    pure (equal_fold line options)

  -- The user of the connection: of nil its name or object is a panic.
  unfoldable pub connected_user : Act Connection User
  connected_user c = elim (c.user) [ none ↦ some (c, err panic) | some u ↦ some (c, ok u) ]

  abbrev pub show_description : Option Description → Act Connection (Unit {0})
  show_description none = pure tt
  show_description (some d) = do print d.short; print []; print d.long

  abbrev pub here : Option (List Text) → Act Connection (Unit {0})
  here none = raise panic
  here (some shorts) = do
    print []
    print (
        enumerate (record { form = []; separator = []; operator = []; active = true }) shorts
        ++ codes " here")

  abbrev pub show_siblings : List Object → Act Connection (Unit {0})
  show_siblings [] = pure tt
  show_siblings (o ∷ os) = here (objects_short (o ∷ os))

  abbrev pub show_exits : List Exit → Act Connection (Unit {0})
  show_exits [] = pure tt
  show_exits (e ∷ es) = do print []; print (exits_short (e ∷ es))

  -- Location.Inspect, which checks skills
  unfoldable pub inspected :
      Neighbourhood → Object → Act (World p) (Option Description × List Exit × List Object)
  inspected neigh obj w =
      let (uses, found) = inspect_location p.check neigh.location obj w.uses in
      some (record w { uses = uses }, ok found)

  module _ (handler : Movement → Act (World p) (Unit {0})) (ref : Refresh p) where
    -- Connection.object
    unfoldable pub connection_object : Act Connection Object
    unfolding in_world connected_user
    connection_object = do
      user ← connected_user
      in_world (load_refreshed p handler ref user.object)

    -- describeLong
    unfoldable pub describe_long : Act Connection (Unit {0})
    unfolding connection_object print inspected
    describe_long = do
      obj ← connection_object
      neigh ← in_world (load_neighbourhood p handler ref obj)
      seen ← in_world (inspected neigh obj)
      show_description (seen.0)
      show_siblings (seen.2)
      show_exits (seen.1)
