-- ===== src/Game.antt =====
-- game/: the world that the game changes, and events for its objects (game.go, processing.go). What
-- the game stands on comes as one record, Parts: V8, the databases, JSON, and the terminals.
-- The steps of one call are taken as one; the locks by object, which loadRunSave takes, are modelled
-- in Sync.Locks.
pub mod Emit
pub mod Storage
pub mod Scripts
pub mod Run
pub mod Stable
pub mod Harmless
pub mod Keeps
pub mod Safety
pub mod Start
pub mod Terminal
pub mod Asking
pub mod Login
pub mod Authentic
pub mod Joining
pub mod Commands
pub mod Refused
pub mod Toy
mod Tests
use juicemud.Base.{
  ℕ, suc, ◌+◌, ◌%◌, ◌^◌, Bool, true, false, List, [], ◌∷◌, ◌++◌, Option, none, some, Text, codes,
  Error, Result, ok, err, Assoc, lookup, insert, if◌then◌else◌,
}
use juicemud.Base.Act.{Act, ◌>>=◌, ◌>>◌, pure, raise, lift, reads, runs}
use juicemud.Dbm.{Tkrzw}
use juicemud.Dbm.Typed.{Serializable}
use juicemud.Structs.{
  Float32, Skill, Challenge, Description, Exit, Object, Event, Call, Neighbourhood, join,
}
use juicemud.Files.{Sql}
use juicemud.Files.Sources.{Store}
use juicemud.Objects.{Movement}
use juicemud.Queue.{Tree, Queue, push}
use juicemud.Js.{V8}
pub use juicemud.Skills.{SkillRule}
use juicemud.Fanout.{Fanout, write}

-- Values of one type in JSON. A text is read into a value that is there already, which may be changed
-- also where there is an error.
pub record Codec (A : Type 0) : Type 0 where
  pub marshal : A → Result Text
  pub unmarshal : Text → A → A × Result (Unit {0})

pub record Parts : Type 1 where
  pub v8 : V8
  pub sql : Sql
  pub tkrzw : Tkrzw
  pub tree : Tree
  pub object_bytes : Serializable Object
  pub text : Codec Text
  pub content : Codec (Assoc Bool)
  pub object_skills : Codec (Assoc Skill)
  pub descriptions : Codec (List Description)
  pub exits : Codec (List Exit)
  pub rule : Codec SkillRule
  pub rules : Codec (Assoc SkillRule)
  pub neighbourhood : Neighbourhood → Result Text
  pub movement : Movement → Result Text
  -- A skill check, which changes the record of skill uses.
  pub Uses : Type 0
  pub check : Challenge → Object → Object → Uses → Uses × Bool
  -- NextObjectID, with a number of Increment.
  pub object_id : ℕ → Result Text
  -- goccy.Marshal of what a new connection tells its object, and MarshalIndent of a state.
  pub connected : Text → Text → Result Text
  pub indented : Text → Result Text
  pub singular : Text → Text
  pub plural : Text → Text
  -- shellwords.SplitPosix
  pub split_posix : Text → Result (List Text)
  pub md5 : List ℕ → List ℕ
  -- What run logs of an error, if it is one of the script: where it is, its message and its stack.
  pub js_error : Error → Option Text
  -- A write to a terminal.
  pub write_to : ℕ → List ℕ → Result ℕ

module _ (p : Parts) where
  -- What the game reads and changes. The clock and the numbers of Increment are as they would be
  -- read next; `machines` are those that wait to be taken.
  pub record World : Type 0 where
    pub files : Store p.sql p.tkrzw
    pub objects : p.tkrzw.Db
    pub queue : Queue p.tree
    pub time : ℕ
    pub counter : ℕ
    pub consoles : Assoc (Option Fanout)
    pub skills : Assoc SkillRule
    pub uses : p.Uses
    pub machines : List p.v8.Machine

  -- `consoleByObjectID.Get(id)`
  abbrev pub console_of : Text → Assoc (Option Fanout) → Option Fanout
  console_of id consoles = elim (lookup id consoles) [ none ↦ none | some f ↦ f ]

  abbrev pub console_left : Text → Option Fanout → List ℕ → World → World
  console_left id none text w = w
  console_left id (some f) text w = record w {
    consoles = insert id (write p.write_to (some f) text).0 w.consoles;
  }

  -- A text on the console of an object, which may lose terminals by it.
  unfoldable pub write_console : Text → Text → World → World
  write_console id text w = console_left id (console_of id w.consoles) text w

  -- A line of words on the console of an object.
  unfoldable pub println : Text → List Text → World → World
  unfolding write_console
  println id words w = write_console id (join (codes " ") words ++ codes "\n") w
