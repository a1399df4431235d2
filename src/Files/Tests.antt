-- ===== src/Files/Tests.antt =====
-- The log and the access checks at concrete tables.
use juicemud.Base.{
  ℕ, ◌≡◌, ◌≢◌, refl, ok, false, List, [], ◌∷◌, none, some, Text, ◌=~◌, is_empty, err, Error, driver,
  arith,
}
use juicemud.Dbm.{View}
use juicemud.Dbm.Memory.{memory}
use juicemud.Files.{File, FileSync, User, Caller, fault}
use juicemud.Files.Access.{
  caller_access_to_group_id, caller_access-Answers, may_access, Answers, load_file,
  load_group_by_name, check_caller,
}
use juicemud.Files.Guards.{store_source-refused}
use juicemud.Files.Sources.{Store, store_source, sync}
use juicemud.Files.Replay.{Works, Replays, sync-Replays, sync-stuck}
use juicemud.Files.Ops.{chwrite_file_tx, move_file_tx}
use juicemud.Files.Grants.{Granted, chwrite_file_tx-Granted, move_file_tx-fails}
use juicemud.Files.RoundTrip.{Kept, store_source-Kept}
use juicemud.Files.Memory.{Tables, tables}

abbrev a : Text
a = b'/' ∷ b'a' ∷ []

abbrev d : Text
d = b'/' ∷ b'd' ∷ []

abbrev store_a : FileSync
store_a = record { id = 1; remove = []; set = a; content = 7 ∷ []; mod_time = 5 }

abbrev remove_a : FileSync
remove_a = record { id = 2; remove = a; set = []; content = []; mod_time = 0 }

abbrev remove_d : FileSync
remove_d = record { id = 1; remove = d; set = []; content = []; mod_time = 0 }

abbrev wizard : User
wizard = record { id = 3; name = []; password_hash = []; owner = false; object = [] }

abbrev logging : List FileSync → Tables
logging log = record {
  files = [];
  syncs = log;
  groups = [];
  users = wizard ∷ [];
  members = record { id = 1; user = 3; group = 8 } ∷ [];
}

abbrev nothing : View
nothing k = none

abbrev at : List FileSync → Store tables memory
at log = record { sql = logging log; sources = nothing; mod_times = nothing }

works : Works tables memory
works = ((λ db n. go db.syncs n), (λ db id. (_, refl)))
  where
    go : (log : List FileSync) (n : ℕ) → tables.select_oldest_sync (logging log) ≢ fault n
    go [] n h = cc
    go (f ∷ log) n h = cc

sync-Replays_example : Replays tables memory 3 (at (store_a ∷ remove_a ∷ [])) (nothing, nothing)
sync-Replays_example =
    sync-Replays tables memory 3 (at (store_a ∷ remove_a ∷ [])) (nothing, nothing) works
      (((λ h. omega arith), tt), (tt, tt)) ((λ k. refl), (λ k. refl)) (omega arith)

sync-stuck_example :
    (n : ℕ) × (s' : Store tables memory) × (sync tables memory 5 (at (remove_d ∷ store_a ∷ []))
      ≡ some (s', err (driver n)))
    × (s'.sql ≡ logging (remove_d ∷ store_a ∷ []))
    × (s'.mod_times ≡ nothing)
unfolding is_empty
sync-stuck_example =
    sync-stuck tables memory 4 (at (remove_d ∷ store_a ∷ [])) remove_d refl refl refl

abbrev caller : Caller
caller = record { is_main = false; user = some wizard }

caller_access-Answers_example :
    Answers tables
      (may_access (tables.members (logging [])) caller 8)
      (caller_access_to_group_id tables (logging []) caller 8)
caller_access-Answers_example = caller_access-Answers tables (logging []) caller 8

-- A file that the group 8 may read, and the group 9 may write.
abbrev guarded : File
guarded = record {
  id = 4;
  parent = 0;
  name = a;
  path = a;
  dir = false;
  read_group = 8;
  write_group = 9;
}

abbrev guarding : Store tables memory
guarding = record {
  sql = record (logging []) { files = guarded ∷ [] };
  sources = nothing;
  mod_times = nothing;
}

store_source-refused_example :
    (e : Error) × (store_source tables memory 5 caller a (7 ∷ []) 6 guarding
      ≡ some (guarding, err e))
unfolding ◌=~◌
store_source-refused_example =
    store_source-refused tables memory 5 caller a (7 ∷ []) 6 guarding guarded refl refl

-- A file that the group 8 may write, too.
abbrev shared : Tables
shared = record (logging []) { files = record guarded { write_group = 8 } ∷ [] }

store_source-Kept_example :
    Kept tables memory 3 caller a
      (7 ∷ [])
      6
      (record { sql = shared; sources = nothing; mod_times = nothing })
store_source-Kept_example =
    store_source-Kept tables memory 3 caller a (7 ∷ []) 6
      (record { sql = shared; sources = nothing; mod_times = nothing }) works tt (omega arith)

abbrev wizards : Text
wizards = b'w' ∷ []

abbrev grouped : Tables
grouped = record shared { groups = record { id = 8; name = wizards; owner_group = 0 } ∷ [] }

chwrite_file_tx-Granted_example :
    Granted tables grouped grouped
      (record grouped { files = record guarded { write_group = 8 } ∷ [] })
      caller
      a
      wizards
unfolding chwrite_file_tx load_file check_caller load_group_by_name is_empty ◌=~◌
chwrite_file_tx-Granted_example =
    chwrite_file_tx-Granted tables grouped grouped _ caller a wizards refl

move_file_tx-fails_example :
    move_file_tx tables memory 2
      (record { sql = shared; sources = nothing; mod_times = nothing })
      caller
      a
      d
      shared
    ≢ some (ok (shared, tt))
move_file_tx-fails_example =
    move_file_tx-fails tables memory 2
      (record { sql = shared; sources = nothing; mod_times = nothing }) caller a d shared shared
      refl
