-- ===== src/Dav/Tests.antt =====
-- Locks, timeouts and a PUT at concrete requests, over a file system of one file.
use juicemud.Base.{
  ℕ, ◌≡◌, refl, [], ◌∷◌, Text, is_empty, codes, arith, invalid, not_exist, Result, ok, err, lookup,
}
use juicemud.Dbm.{Bytes}
use juicemud.Dav.{FileSystem, Request, fails_with}
use juicemud.Dav.Timeout.{contains}
use juicemud.Dav.Handlers.{Handler, handle_lock, handle_put, serve_http}
use juicemud.Dav.Locking.{handle_put-locked, serve_http-Held, Held}

abbrev one_file : FileSystem
one_file = record {
  S = Bytes;
  Writer = Bytes;
  read = λ s p. ok s;
  write = λ s p. (s, ok []);
  collect = λ w b. b;
  close = λ s w. (w, ok tt);
  stat = λ s p. err not_exist;
  remove = λ s p. ([], ok tt);
  mkdir = λ s p. (s, err invalid);
  list = λ s p. ok [];
  rename = λ s p d. (s, err invalid);
}

abbrev a : Text
a = codes "/a"

abbrev parse : Text → Result Text
parse t = ok t

abbrev asks : Text → Text → ℕ → Request
asks method token now = record {
  method = method;
  path = a;
  body = 7 ∷ [];
  if_header = token;
  depth = [];
  destination = [];
  timeout = [];
  lock_token = token;
  now = now;
  fresh_token = codes "f";
}

abbrev unlocked : Handler one_file parse
unlocked = record { files = 1 ∷ []; locks = [] }

abbrev locked : Handler one_file parse
locked = (handle_lock one_file parse unlocked (asks (codes "LOCK") [] 100)).0

handle_put-locked_example :
    handle_put one_file parse locked (asks (codes "PUT") (codes "other") 200)
    ≡ (locked, fails_with 423 invalid)
unfolding contains lookup is_empty
handle_put-locked_example =
    handle_put-locked one_file parse unlocked (asks (codes "LOCK") [] 100)
      (asks (codes "PUT") (codes "other") 200) refl (omega arith) refl

serve_http-Held_example :
    Held a
      (asks (codes "DELETE") [] 200)
      locked.locks
      (serve_http one_file parse locked (asks (codes "DELETE") [] 200)).0.locks
serve_http-Held_example = serve_http-Held one_file parse a locked (asks (codes "DELETE") [] 200)
