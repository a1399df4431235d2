-- ===== src/Dav/Locking.antt =====
-- What the locks of the handler do: who a lock keeps out, and what becomes of it.
use juicemud.Base.{
  ◌<◌, ◌≡◌, refl, sym, ap, ◌∙◌, inl, inr, ◌⊎◌, true, false, Option, none, some, Text, ◌=~◌, =~_iff,
  is_empty, codes, arith, invalid, Result, ok, err, Assoc, lookup, insert, erase, lookup-insert,
  lookup-erase, Bool-cases,
}
use juicemud.Dav.{FileSystem, Lock, Request, Response, fails_with}
use juicemud.Dav.Timeout.{contains, trim, add_duration}
use juicemud.Dav.Handlers.{
  Method, options, get, put, delete, mkcol, move, propfind, lock, unlock, other, method_of,
  dispatch, Handler, is_locked_out, handle_put, handle_delete, handle_mkcol, handle_move,
  handle_lock, handle_unlock, serve_http, relocked, duration_of, ended,
}

relocked-expires_at :
    (o : Option Lock) (l : Request) → (relocked o l).expires_at ≡ add_duration l.now (duration_of l)
relocked-expires_at none l = refl
relocked-expires_at (some l0) l = refl

is_locked_out-some :
    (l0 : Lock) (r : Request)
    → r.now < l0.expires_at
    → contains r.if_header l0.token ≡ false
    → is_locked_out (some l0) r ≡ true
unfolding is_locked_out
is_locked_out-some l0 r early unknown = ground arith

lookup-insert_same :
    (j k : Text) (l0 : Lock) (m : Assoc Lock) → j ≡ k → lookup j (insert k l0 m) ≡ some l0
lookup-insert_same j k l0 m same = ground (arith, lookup-insert j k l0 m, =~_iff k j)

module _ (fs : FileSystem) (parse_url : Text → Result Text) where
  ended-locks :
      (h : Handler fs parse_url) (x : fs.S × Result (Unit {0}))
      → (ended fs parse_url h x).0.locks ≡ h.locks
  ended-locks h (s, ok u) = refl
  ended-locks h (s, err e) = refl

  handle_put-locks :
      (h : Handler fs parse_url) (r : Request) → (handle_put fs parse_url h r).0.locks ≡ h.locks
  unfolding handle_put
  handle_put-locks h r = ground arith

  handle_move-locks :
      (h : Handler fs parse_url) (r : Request) → (handle_move fs parse_url h r).0.locks ≡ h.locks
  unfolding handle_move
  handle_move-locks h r = elim (Bool-cases (is_empty r.destination)) [
    | inl none_given ↦ rw (none_given, handle_move) refl
    | inr given ↦ rw (given, handle_move) (go (parse_url r.destination))
  ]
    where
      go :
          (d : Result Text)
          → ◌≡◌ {A = Assoc Lock}
              (elim d as (λ x. Handler fs parse_url × Response) [
                | err e ↦ (h, fails_with 400 e)
                | ok dest ↦ ended fs parse_url h (fs.rename h.files r.path dest)
              ]).0.locks
              h.locks
      go (ok dest) = ended-locks h (fs.rename h.files r.path dest)
      go (err e) = refl

  -- A PUT of a locked path by one who does not give the lock's token, before the lock expires, is
  -- answered with 423 and changes nothing, be it that the lock was set or renewed.
  pub handle_put-locked :
      (h : Handler fs parse_url) (l r : Request)
      → r.path ≡ l.path
      → r.now < add_duration l.now (duration_of l)
      → contains r.if_header (relocked (lookup l.path h.locks) l).token ≡ false
      → let h' = (handle_lock fs parse_url h l).0 in
        handle_put fs parse_url h' r ≡ (h', fails_with 423 invalid)
  unfolding handle_put handle_lock is_locked_out
  handle_put-locked h l r same early unknown =
      let l0 = relocked (lookup l.path h.locks) l in
      let there = lookup-insert_same r.path l.path l0 h.locks same in
      let out =
        is_locked_out-some l0 r (rw (relocked-expires_at (lookup l.path h.locks) l) early)
          unknown in
      rw (there, out, handle_put, handle_lock) refl

unlock-method : (m : Text) → method_of m ≡ unlock → m ≡ codes "UNLOCK"
unfolding method_of
unlock-method m h = ground (arith, =~_iff m (codes "UNLOCK"))

-- The lock of a path, if there is one, is still there with its token, or it was released: by an
-- UNLOCK of that path that gives its token.
abbrev pub Held : Text → Request → Assoc Lock → Assoc Lock → Type 0
Held p r before after =
    (l0 : Lock)
    → lookup p before ≡ some l0
    → ((l0' : Lock) × (lookup p after ≡ some l0') × (l0'.token ≡ l0.token))
      ⊎ ((r.method ≡ codes "UNLOCK")
          × (r.path ≡ p)
          × (trim r.lock_token ≡ l0.token)
          × (lookup p after ≡ none))

Held-same : (p : Text) (r : Request) (m m' : Assoc Lock) → m' ≡ m → Held p r m m'
Held-same p r m m' same l0 h = inl (l0, ap (lookup p) same ∙ h, refl)

relocked-token :
    (o : Option Lock) (l0 : Lock) (r : Request) → o ≡ some l0 → (relocked o r).token ≡ l0.token
relocked-token none l0 r h = absurd (cc)
relocked-token (some k) l0 r h = ground arith

module _ (fs : FileSystem) (parse_url : Text → Result Text) where
  handle_lock-Held :
      (p : Text) (h : Handler fs parse_url) (r : Request)
      → Held p r h.locks (handle_lock fs parse_url h r).0.locks
  unfolding handle_lock
  handle_lock-Held p h r l0 there = elim (Bool-cases (r.path =~ p)) [
    | inl same ↦
        let path : r.path ≡ p = (=~_iff r.path p).0 same in
        inl (
          relocked (lookup r.path h.locks) r,
          lookup-insert_same p r.path (relocked (lookup r.path h.locks) r) h.locks (sym path),
          relocked-token (lookup r.path h.locks) l0 r (ap (λ k. lookup k h.locks) path ∙ there),
        )
    | inr differs ↦ inl (
      l0,
      lookup-insert p r.path (relocked (lookup r.path h.locks) r) h.locks ∙ rw differs there,
      refl,
    )
  ]

  handle_unlock-cases :
      (h : Handler fs parse_url) (r : Request)
      → let after = (handle_unlock fs parse_url h r).0.locks in
        (after ≡ h.locks)
        ⊎ ((l0 : Lock) × (lookup r.path h.locks ≡ some l0)
            × (l0.token ≡ trim r.lock_token)
            × (after ≡ erase r.path h.locks))
  unfolding handle_unlock
  handle_unlock-cases h r = go (lookup r.path h.locks) refl
    where
      go :
          (o : Option Lock)
          → lookup r.path h.locks ≡ o
          → let after = (handle_unlock fs parse_url h r).0.locks in
            (after ≡ h.locks)
            ⊎ ((l0 : Lock) × (lookup r.path h.locks ≡ some l0)
                × (l0.token ≡ trim r.lock_token)
                × (after ≡ erase r.path h.locks))
      go none e = inl (rw (e, handle_unlock) refl)
      go (some l0) e = elim (Bool-cases (l0.token =~ trim r.lock_token)) [
        | inl right ↦ inr (
          l0,
          e,
          (=~_iff l0.token (trim r.lock_token)).0 right,
          rw (e, right, handle_unlock) refl,
        )
        | inr wrong ↦ inl (rw (e, wrong, handle_unlock) refl)
      ]

  handle_unlock-Held :
      (p : Text) (h : Handler fs parse_url) (r : Request)
      → r.method ≡ codes "UNLOCK"
      → Held p r h.locks (handle_unlock fs parse_url h r).0.locks
  handle_unlock-Held p h r named l0 there = elim (handle_unlock-cases h r) [
    | inl same ↦ Held-same p r h.locks _ same l0 there
    | inr (found, at, right, erased) ↦ elim (Bool-cases (r.path =~ p)) [
      | inl same ↦
          let path : r.path ≡ p = (=~_iff r.path p).0 same in
          let one : found ≡ l0 = ground (arith, sym at ∙ ap (λ k. lookup k h.locks) path ∙ there) in
          inr (
            named,
            path,
            sym right ∙ ap (λ k. k.token) one,
            ap (lookup p) erased ∙ lookup-erase p r.path h.locks ∙ rw same refl,
          )
      | inr differs ↦
          inl (l0, ap (lookup p) erased ∙ lookup-erase p r.path h.locks ∙ rw differs there, refl)
    ]
  ]

  dispatch-Held :
      (m : Method) (p : Text) (h : Handler fs parse_url) (r : Request)
      → method_of r.method ≡ m
      → Held p r h.locks (dispatch fs parse_url m h r).0.locks
  unfolding handle_delete handle_mkcol
  dispatch-Held options p h r e = Held-same p r h.locks _ refl
  dispatch-Held get p h r e = Held-same p r h.locks _ refl
  dispatch-Held put p h r e = Held-same p r h.locks _ (handle_put-locks fs parse_url h r)
  dispatch-Held delete p h r e =
      Held-same p r h.locks _ (ended-locks fs parse_url h (fs.remove h.files r.path))
  dispatch-Held mkcol p h r e =
      Held-same p r h.locks _ (ended-locks fs parse_url h (fs.mkdir h.files r.path))
  dispatch-Held move p h r e = Held-same p r h.locks _ (handle_move-locks fs parse_url h r)
  dispatch-Held propfind p h r e = Held-same p r h.locks _ refl
  dispatch-Held lock p h r e = handle_lock-Held p h r
  dispatch-Held unlock p h r e = handle_unlock-Held p h r (unlock-method r.method e)
  dispatch-Held other p h r e = Held-same p r h.locks _ refl

  -- Whatever a client sends, a lock stays with its token until an UNLOCK of its path gives that token.
  pub serve_http-Held :
      (p : Text) (h : Handler fs parse_url) (r : Request)
      → Held p r h.locks (serve_http fs parse_url h r).0.locks
  unfolding serve_http
  serve_http-Held p h r = dispatch-Held (method_of r.method) p h r refl
