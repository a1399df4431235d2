-- ===== src/Digest/Guard.antt =====
-- Who gets past the digest authentication of digest/digest.go.
use juicemud.Base.{
  ℕ, ◌≡◌, ◌↔◌, refl, Bool, true, false, List, [], ◌∷◌, Option, none, some, Text, ◌=~◌, =~_iff,
  codes, Result, ok, err, Assoc, lookup, insert, ◌++◌, has_prefix, arith, if◌then◌else◌,
  is_not_exist,
}
use juicemud.Files.{Sql, User, Fetched, row, no_row, fault, row_of}
use juicemud.Files.Access.{get_ha1_and_user}
use juicemud.Digest.{
  DigestAuth, served, param, parse_digest_header, calculate_response, challenge, validate, wrap,
  md5_hash, colons, compute_ha1,
}
use juicemud.Digest.Header.{all, in_value, fields, insert_all, parse_digest_header-fields, hex-all}

abbrev pub AllValues : List Text → Type 0
AllValues [] = Unit
AllValues (t ∷ ts) = (all in_value t ≡ true) × AllValues ts

module _ (md5 : List ℕ → List ℕ) (q : Sql) where
  -- The header is one of digest authentication, its user is a row of the table, and its response is
  -- the one that the stored hash of this user gives.
  abbrev pub IsAnswered : q.Db → Text → Text → User → Type 0
  IsAnswered db header method user =
      let params = parse_digest_header header in
      (has_prefix header (codes "Digest ") ≡ true)
      × (q.select_user db (param (codes "username") params) ≡ row user)
      × (param (codes "response") params ≡ calculate_response md5 params user.password_hash method)

  abbrev ha1_of : Fetched User → Result (Text × Option User)
  ha1_of r = elim (row_of r) [
    | ok u ↦ ok (u.password_hash, some u)
    | err e ↦ if is_not_exist e then ok ([], none) else err e
  ]

  validate-served :
      (da : DigestAuth) (params : Assoc Text) (method nonce : Text) (user : User) (b : Bool)
      (r : Fetched User)
      → ((if b then validate md5 q da params method nonce (ha1_of r) else challenge md5 da nonce)
          ≡ served (some user))
        ↔ ((b ≡ true)
            × (r ≡ row user)
            × (param (codes "response") params
                ≡ calculate_response md5 params user.password_hash method))
  unfolding validate challenge
  validate-served da params method nonce user false r = (λ h. absurd (cc), λ h. absurd (cc))
  validate-served da params method nonce user true no_row = (λ h. absurd (cc), λ h. absurd (cc))
  validate-served da params method nonce user true (fault n) = (λ h. absurd (cc), λ h. absurd (cc))
  validate-served da params method nonce user true (row u) = ground (
    arith,
    =~_iff (param (codes "response") params) (calculate_response md5 params u.password_hash method),
  )

  -- A request reaches the handler exactly if the header is one of digest authentication, names a user
  -- of the table, and has the response that the stored hash of that user gives; and the handler gets
  -- that user.
  pub wrap-served :
      (da : DigestAuth) (db : q.Db) (header method nonce : Text) (user : User)
      → (wrap md5 q da db header method nonce ≡ served (some user))
        ↔ IsAnswered db header method user
  unfolding wrap get_ha1_and_user
  wrap-served da db header method nonce user =
      validate-served da (parse_digest_header header) method nonce user
        (has_prefix header (codes "Digest ")) (q.select_user db _)

  -- The fields of a client that knows the password, in the order in which it sends them.
  abbrev pub client_fields :
      Text → Text → Text → Text → Text → Text → Text → Text → Text → List (Text × Text)
  client_fields username realm password method uri nonce nc cnonce qop =
      (codes "realm", realm)
      ∷ (codes "nonce", nonce)
      ∷ (codes "uri", uri)
      ∷ (codes "qop", qop)
      ∷ (codes "nc", nc)
      ∷ (codes "cnonce", cnonce)
      ∷ (
        codes "response",
        md5_hash md5 (
            colons (
              compute_ha1 md5 username realm password
              ∷ nonce
              ∷ nc
              ∷ cnonce
              ∷ qop
              ∷ md5_hash md5 (colons (method ∷ uri ∷ []))
              ∷ [])),
      )
      ∷ []

  md5_hash-all : (t : Text) → all in_value (md5_hash md5 t) ≡ true
  unfolding md5_hash
  md5_hash-all t = hex-all (md5 t)

  -- A client that knows the password of a user of the table, and sends a header with the response
  -- that RFC 2617 asks for, is served as that user, if no value has a comma or a quote in it.
  pub wrap-honest :
      (da : DigestAuth) (db : q.Db) (user : User)
      (realm password method uri nonce nc cnonce qop fresh : Text)
      → q.select_user db user.name ≡ row user
      → user.password_hash ≡ compute_ha1 md5 user.name realm password
      → AllValues (user.name ∷ realm ∷ uri ∷ nonce ∷ nc ∷ cnonce ∷ qop ∷ [])
      → wrap md5 q da db
          (codes "Digest "
            ++ fields
                (codes "username", user.name)
                (client_fields user.name realm password method uri nonce nc cnonce qop))
          method
          fresh
        ≡ served (some user)
  unfolding has_prefix lookup insert insert_all ◌=~◌ calculate_response all
  wrap-honest da db user realm password method uri nonce nc cnonce qop fresh known hash
        (a, (b, (c, (d, (e, (f, (g, _))))))) =
      let read =
        parse_digest_header-fields (codes "username", user.name)
          (client_fields user.name realm password method uri nonce nc cnonce qop)
          (
            refl,
            a,
            (
              refl,
              b,
              (refl, d, (refl, c, (refl, g, (refl, e, (refl, f, (refl, md5_hash-all _, tt)))))),
            ),
          ) in
      (wrap-served da db _ method fresh user).1 (refl, rw read known, rw (read, hash) refl)
