-- ===== src/Game/Toy.antt =====
-- Parts of the game for tests: every script emits one event, and JSON says nothing.
use juicemud.Base.{ℕ, true, false, [], ◌∷◌, none, Text, codes, ok, length}
use juicemud.Dbm.Memory.{memory}
use juicemud.Structs.{Object, make_object}
use juicemud.Structs.Encoding.{object_bytes}
use juicemud.Files.{User}
use juicemud.Files.Memory.{Tables, tables}
use juicemud.Queue.Memory.{slot}
use juicemud.Js.{V8, ends, calls}
use juicemud.Game.{Parts, Codec}

abbrev pub emitting : V8
emitting = record {
  Machine = ℕ;
  Value = Text;
  Function = Text;
  is_string = λ v. true;
  is_array = λ v. true;
  is_object = λ v. true;
  is_function = λ v. true;
  is_null = λ v. false;
  string = λ v. v;
  integer = λ v. 0;
  as_function = λ v. ok v;
  json_parse = λ m t. ok t;
  json_stringify = λ m v. ok v;
  bind = λ m t. ok m;
  set_global = λ m t v. ok m;
  get_global = λ m t. ok t;
  run_script = λ m source origin.
      calls (codes "emit") (codes "x" ∷ codes "hi" ∷ codes "{}" ∷ []) (λ r. ends m (ok []));
  call_function = λ m f v. ends m (ok f);
  unmarshal_tags = λ t. ok [];
}

abbrev silent : {A : Type 0} → Codec A
silent = record { marshal = λ a. ok []; unmarshal = λ t a. (a, ok tt) }

abbrev pub toy : Parts
toy = record {
  v8 = emitting;
  sql = tables;
  tkrzw = memory;
  tree = slot;
  object_bytes = object_bytes;
  text = silent;
  content = silent;
  object_skills = silent;
  descriptions = silent;
  exits = silent;
  rule = silent;
  rules = silent;
  neighbourhood = λ n. ok [];
  movement = λ m. ok [];
  Uses = ℕ;
  check = λ c a b n. (n, true);
  object_id = λ n. ok (n ∷ []);
  connected = λ name object. ok [];
  indented = λ t. ok t;
  singular = λ t. t;
  plural = λ t. t;
  split_posix = λ t. ok (t ∷ []);
  md5 = λ t. length t ∷ [];
  js_error = λ e. none;
  write_to = λ t b. ok (length b);
}

-- The hash is that of a password of two letters.
abbrev pub bob : User
bob = record {
  id = 3;
  name = codes "bob";
  password_hash = codes "0d";
  owner = false;
  object = codes "u";
}

abbrev pub rows : Tables
rows = record {
  files = [];
  syncs = [];
  groups = record { id = 8; name = codes "wizards"; owner_group = 0 } ∷ [];
  users = bob ∷ [];
  members = [];
}

-- An object whose script was never run.
abbrev pub thing : Object
thing = record (make_object (codes "u")) { source_path = codes "/s" }
