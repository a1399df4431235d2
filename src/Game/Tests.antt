-- ===== src/Game/Tests.antt =====
-- An event, a login and a command, in a world of one user and one object.
use juicemud.Base.{
  ◌≡◌, refl, false, List, [], ◌∷◌, Option, none, some, Text, ◌=~◌, codes, Result, if◌then◌else◌,
  arith, lookup, insert,
}
use juicemud.Base.Act.{Left}
use juicemud.Dbm.{View}
use juicemud.Structs.{Call, make_object}
use juicemud.Structs.Encoding.{object_bytes}
use juicemud.Structs.Keys.{put_uint64}
use juicemud.Queue.Memory.{only}
use juicemud.Game.{World}
use juicemud.Game.Toy.{toy, bob, rows, thing}
use juicemud.Game.Run.{handle_event, run_target, level}
use juicemud.Queue.{push}
use juicemud.Js.Running.{run}
use juicemud.Game.Scripts.{emit, add_global_callbacks, add_object_callbacks, add_get_set_pair}
use juicemud.Game.Safety.{handle_event-files, AllEmitted, handle_event-AllEmitted}
use juicemud.Game.Terminal.{Connection}
use juicemud.Game.Login.{login_user, enter_user}
use juicemud.Game.Joining.{Entered, enter_user-Entered}
use juicemud.Game.Authentic.{LoggedIn, login_user-LoggedIn}
use juicemud.Game.Commands.{commands, run_commands}
use juicemud.Game.Refused.{handler, ref, plain, run_commands-refused}

abbrev one_object : View
one_object k = if k =~ codes "u" then some (object_bytes.marshal thing) else none

abbrev world : World toy
world = record {
  files = record {
    sql = rows;
    sources = λ k. some (codes "emit");
    mod_times = λ k. some (put_uint64 5);
  };
  objects = one_object;
  queue = record { tree = none; closed = false; next_event = none; offset = 0 };
  time = 100;
  counter = 1;
  consoles = [];
  skills = [];
  uses = 0;
  machines = 7 ∷ 8 ∷ [];
}

abbrev started : Call
started = record { name = []; message = []; tag = [] }

handle_event-files_example :
    Left (λ w. w.files ≡ world.files) (handle_event toy 2 (codes "u") started world)
handle_event-files_example = handle_event-files toy 2 (codes "u") started world

handle_event-AllEmitted_example :
    Left (AllEmitted toy) (handle_event toy 2 (codes "u") started world)
handle_event-AllEmitted_example =
    handle_event-AllEmitted toy 2 (codes "u") started world (λ db e x at. only e x db at)
      (λ x nowhere. absurd nowhere)

abbrev connection : Connection toy
connection = record {
  world = world;
  input = codes "bob" ∷ codes "pw" ∷ [];
  output = [];
  user = none;
  caller = none;
  environments = [];
  term = 1;
}

login_user-LoggedIn_example :
    LoggedIn toy world (codes "bob" ∷ codes "pw" ∷ []) (login_user toy 3 connection)
login_user-LoggedIn_example = login_user-LoggedIn toy 3 connection refl (omega arith)

enter_user-Entered_example : Entered toy world (
    enter_user toy 5
      (record connection { input = codes "eve" ∷ codes "pw" ∷ codes "pw" ∷ codes "y" ∷ [] }))
enter_user-Entered_example =
    enter_user-Entered toy 5
      (record connection { input = codes "eve" ∷ codes "pw" ∷ codes "pw" ∷ codes "y" ∷ [] }) refl
      (omega arith)

run_commands-refused_example :
    run_commands toy bob
      (commands toy (handler toy world.files 2) (ref toy world.files 2))
      (codes "!ls /")
      connection
    ≡ run_commands toy bob
        (plain toy world.files (commands toy (handler toy world.files 2) (ref toy world.files 2)))
        (codes "!ls /")
        connection
unfolding ◌=~◌
run_commands-refused_example =
    run_commands-refused toy 2 bob (codes "!ls /") connection
      (record { id = 8; name = codes "wizards"; owner_group = 0 }) refl refl refl (λ n. cc)

-- The objects and names of the events in the queue, after a run of a script.
abbrev left : {A : Type 0} → Option (World toy × Result A) → List (Text × Text)
left none = []
left (some (w, r)) = elim (w.queue.tree) [ none ↦ [] | some e ↦ (e.object, e.call.name) ∷ [] ]

script_emits :
    left (run_target toy (level toy 0).0 (level toy 0).1 thing none (codes "emit") 5 world)
    ≡ (codes "x", codes "hi") ∷ []
unfolding run_target run lookup insert ◌=~◌ emit push add_global_callbacks add_object_callbacks
    add_get_set_pair make_object
script_emits = refl
