-- ===== src/Dav/Handlers.antt =====
-- The handlers of dav/dav.go, and ServeHTTP, which picks one by the method.
use juicemud.Base.{
  ℕ, ◌-◌, ◌/◌, ◌%◌, ◌^◌, Bool, true, false, ◌&&◌, List, [], ◌∷◌, ◌++◌, Option, none, some, Text,
  ◌=~◌, is_empty, not, codes, ltb, ◌==◌, Error, permission, invalid, Result, ok, err, is_not_exist,
  if◌then◌else◌, Assoc, lookup, insert, erase,
}
use juicemud.Files.Paths.{clean}
use juicemud.Dav.{
  FileInfo, FileSystem, Lock, Request, DavResponse, nothing, content, links, multistatus,
  active_lock, Response, fails, fails_with, answers, create_dav_response,
}
use juicemud.Dav.Timeout.{contains, trim, parse_timeout, ten_minutes, add_duration}

-- `errors.Is(err, os.ErrPermission)`
abbrev pub is_permission : Error → Bool
is_permission permission = true
is_permission _ = false

-- The error branches that most handlers have: 403, 404 and 500.
abbrev pub refuse : Error → Response
refuse e =
    if is_permission e then fails 403 else if is_not_exist e then fails 404 else fails_with 500 e

abbrev names : List FileInfo → List Text
names [] = []
names (f ∷ fs) = f.name ∷ names fs

-- `path.Join(dir, name)`
abbrev join_path : Text → Text → Text
join_path dir name =
    if is_empty dir then (if is_empty name then [] else clean name) else clean (dir ++ b'/' ∷ name)

abbrev child_path : Text → FileInfo → Text
child_path dir child =
    let path = join_path dir child.name in if child.is_dir then path ++ b'/' ∷ [] else path

abbrev child_responses : Text → List FileInfo → List DavResponse
child_responses dir [] = []
child_responses dir (c ∷ cs) = create_dav_response (child_path dir c) c ∷ child_responses dir cs

-- `if token == "" || !strings.Contains(token, lock.Token)` of a lock that has not expired
unfoldable pub is_locked_out : Option Lock → Request → Bool
is_locked_out none r = false
is_locked_out (some l) r =
    ltb r.now l.expires_at && not (not (is_empty r.if_header) && contains r.if_header l.token)

abbrev pub duration_of : Request → ℕ
duration_of r = if is_empty r.timeout then ten_minutes else parse_timeout r.timeout

-- `int(duration.Seconds())`, which goes towards zero.
abbrev pub whole_seconds : ℕ → ℕ
whole_seconds d =
    if ltb d (2 ^ 63) then d / 1000000000 else (2 ^ 64 - (2 ^ 64 - d) / 1000000000) % 2 ^ 64

-- The lock that handleLock leaves: a new one, or the one there is, for longer.
abbrev pub relocked : Option Lock → Request → Lock
relocked none r = record {
  token = codes "opaquelocktoken:" ++ r.fresh_token;
  owner = codes "anonymous";
  expires_at = add_duration r.now (duration_of r);
}
relocked (some l) r = record l { expires_at = add_duration r.now (duration_of r) }

-- What ServeHTTP switches on.
pub data Method : Type 0 where
  options get put delete mkcol move propfind lock unlock other : Method

unfoldable pub method_of : Text → Method
method_of m =
    if m =~ codes "OPTIONS"
    then options
    else if m =~ codes "GET"
    then get
    else if m =~ codes "HEAD"
    then get
    else if m =~ codes "PUT"
    then put
    else if m =~ codes "DELETE"
    then delete
    else if m =~ codes "MKCOL"
    then mkcol
    else if m =~ codes "MOVE"
    then move
    else if m =~ codes "PROPFIND"
    then propfind
    else if m =~ codes "LOCK"
    then lock
    else if m =~ codes "UNLOCK"
    then unlock
    else other

module _ (fs : FileSystem) (parse_url : Text → Result Text) where
  open fs use {S}

  -- A Handler: the state of its file system, and its locks.
  pub record Handler : Type 0 where
    pub files : S
    pub locks : Assoc Lock

  -- handleGet
  pub handle_get : Handler → Request → Response
  handle_get h r = elim (fs.stat h.files r.path) [
    | err e ↦ refuse e
    | ok info ↦
        if info.is_dir
        then elim (fs.list h.files r.path) [
          | err e ↦ fails_with 500 e
          | ok cs ↦ answers 200 (links (names cs))
        ]
        else if info.size == 0
        then answers 200 nothing
        else if r.method =~ codes "HEAD"
        then answers 200 nothing
        else elim (fs.read h.files r.path) [
          | err e ↦ fails_with 404 e
          | ok b ↦ answers 200 (content b)
        ]
  ]

  -- The end of handlePut: the deferred Close comes last, and its error is not looked at.
  abbrev pub put_body : Handler → Request → S → fs.Writer → Handler × Response
  put_body h r s w =
      let (s', closed) = fs.close s (fs.collect w r.body) in
      (record h { files = s' }, answers 201 nothing)

  -- handlePut
  unfoldable pub handle_put : Handler → Request → Handler × Response
  unfolding is_locked_out
  handle_put h r =
      let (s, file) = fs.write h.files r.path in
      let written : Handler × Response = elim file [
        | err e ↦
            (record h { files = s }, (if is_permission e then fails 403 else fails_with 500 e))
        | ok w ↦ put_body h r s w
      ] in
      if is_locked_out (lookup r.path h.locks) r then (h, fails_with 423 invalid) else written

  -- How a handler ends that only calls the file system.
  abbrev pub ended : Handler → S × Result (Unit {0}) → Handler × Response
  ended h (s, ok u) = (record h { files = s }, answers 200 nothing)
  ended h (s, err e) = (record h { files = s }, refuse e)

  -- handleDelete
  unfoldable pub handle_delete : Handler → Request → Handler × Response
  handle_delete h r = ended h (fs.remove h.files r.path)

  -- handleMkcol
  unfoldable pub handle_mkcol : Handler → Request → Handler × Response
  handle_mkcol h r = ended h (fs.mkdir h.files r.path)

  -- handleMove
  unfoldable pub handle_move : Handler → Request → Handler × Response
  handle_move h r =
      if is_empty r.destination
      then (h, fails_with 400 invalid)
      else elim (parse_url r.destination) [
        | err e ↦ (h, fails_with 400 e)
        | ok dest ↦ ended h (fs.rename h.files r.path dest)
      ]

  -- handlePropfind
  pub handle_propfind : Handler → Request → Response
  handle_propfind h r = elim (fs.stat h.files r.path) [
    | err e ↦ refuse e
    | ok info ↦
        let self = create_dav_response r.path info in
        if not (r.depth =~ codes "0") && info.is_dir
        then elim (fs.list h.files r.path) [
          | err e ↦ fails_with 500 e
          | ok children ↦ answers 207 (multistatus (self ∷ child_responses r.path children))
        ]
        else answers 207 (multistatus (self ∷ []))
  ]

  -- handleLock
  unfoldable pub handle_lock : Handler → Request → Handler × Response
  handle_lock h r =
      let l = relocked (lookup r.path h.locks) r in
      (
        record h { locks = insert r.path l h.locks },
        answers 200 (active_lock l.token l.owner (whole_seconds (duration_of r))),
      )

  -- handleUnlock
  unfoldable pub handle_unlock : Handler → Request → Handler × Response
  handle_unlock h r =
      let gone : Handler × Response =
        (record h { locks = erase r.path h.locks }, answers 204 nothing) in
      let kept : Handler × Response = (h, fails_with 409 invalid) in
      elim (lookup r.path h.locks) [
        | none ↦ kept
        | some l ↦ if l.token =~ trim r.lock_token then gone else kept
      ]

  -- The cases of ServeHTTP
  abbrev pub dispatch : Method → Handler → Request → Handler × Response
  dispatch options h r = (h, answers 200 nothing)
  dispatch get h r = (h, handle_get h r)
  dispatch put h r = handle_put h r
  dispatch delete h r = handle_delete h r
  dispatch mkcol h r = handle_mkcol h r
  dispatch move h r = handle_move h r
  dispatch propfind h r = (h, handle_propfind h r)
  dispatch lock h r = handle_lock h r
  dispatch unlock h r = handle_unlock h r
  dispatch other h r = (h, fails 405)

  -- ServeHTTP
  unfoldable pub serve_http : Handler → Request → Handler × Response
  unfolding method_of
  serve_http h r = dispatch (method_of r.method) h r
