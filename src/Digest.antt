-- ===== src/Digest.antt =====
-- digest/digest.go: HTTP digest authentication. MD5 and the random bytes come from Go's library: they
-- are parameters. The log is not modelled.
pub mod Header
pub mod Guard
mod Tests
use juicemud.Base.{
  ℕ, ◌+◌, ◌/◌, ◌%◌, Bool, true, false, List, [], ◌∷◌, ◌++◌, Option, none, some, Text, ◌=~◌, codes,
  if◌then◌else◌, ltb, ◌-◌, ◌==◌, Error, Result, ok, err, Assoc, lookup, insert, has_prefix,
  trim_prefix, split, cut, trim_by, is_space, to_lower, decimal,
}
use juicemud.Files.{Sql, User}
use juicemud.Files.Access.{get_ha1_and_user}

abbrev pub hex_digit : ℕ → ℕ
hex_digit n = if ltb n 10 then n + b'0' else n - 10 + b'a'

-- `hex.EncodeToString`
unfoldable pub hex : List ℕ → Text
hex [] = []
hex (b ∷ bs) = hex_digit (b / 16) ∷ hex_digit (b % 16) ∷ hex bs

-- Texts with a colon between each two of them: `fmt.Sprintf("%s:%s", ...)`.
unfoldable pub colons : List Text → Text
colons [] = []
colons (t ∷ ts) = let rest = colons ts in elim ts [ [] ↦ t | u ∷ us ↦ t ++ b':' ∷ rest ]

-- The type DigestAuth, without its storage.
pub record DigestAuth : Type 0 where
  pub realm : Text
  pub opaque : Text

abbrev pub add_pair : Option (Text × Text) → Assoc Text → Assoc Text
add_pair none params = params
add_pair (some kv) params = insert (to_lower (kv.0)) (trim_by (λ c. c == b'"') (kv.1)) params

-- One part of the header, as a parameter of it: what the loop of parseDigestHeader does.
unfoldable pub add_part : Text → Assoc Text → Assoc Text
add_part part params = add_pair (cut b'=' (trim_by is_space part)) params

unfoldable pub add_parts : List Text → Assoc Text → Assoc Text
unfolding add_part
add_parts [] params = params
add_parts (part ∷ parts) params = add_parts parts (add_part part params)

-- parseDigestHeader
unfoldable pub parse_digest_header : Text → Assoc Text
unfolding add_parts
parse_digest_header header = add_parts (split b',' (trim_prefix header (codes "Digest "))) []

-- `authParams[key]`
abbrev pub param : Text → Assoc Text → Text
param key params = elim (lookup key params) [ none ↦ [] | some v ↦ v ]

-- How a request ends: at the challenge, with its header WWW-Authenticate; as an internal error; or in
-- the handler, with the user that it is authenticated as.
pub data Outcome : Type 0 where
  challenged : Text → Outcome
  failed : Error → Outcome
  served : Option User → Outcome

module _ (md5 : List ℕ → List ℕ) where
  -- md5Hash
  unfoldable pub md5_hash : Text → Text
  unfolding hex
  md5_hash text = hex (md5 text)

  -- ComputeHA1
  unfoldable pub compute_ha1 : Text → Text → Text → Text
  unfolding md5_hash colons
  compute_ha1 username realm password = md5_hash (colons (username ∷ realm ∷ password ∷ []))

  -- generateNonce, at a time and with random bytes
  unfoldable pub generate_nonce : ℕ → List ℕ → Text
  unfolding md5_hash colons decimal
  generate_nonce timestamp random = md5_hash (colons (decimal timestamp ∷ hex random ∷ []))

  -- NewDigestAuth
  pub new_digest_auth : Text → List ℕ → DigestAuth
  new_digest_auth realm random = record { realm = realm; opaque = hex random }

  -- DigestAuth.challenge
  unfoldable pub challenge : DigestAuth → Text → Outcome
  challenge da nonce = challenged (
      codes "Digest realm=\""
      ++ da.realm
      ++ codes "\", nonce=\""
      ++ nonce
      ++ codes "\", opaque=\""
      ++ da.opaque
      ++ codes "\", qop=auth")

  -- DigestAuth.calculateResponse
  unfoldable pub calculate_response : Assoc Text → Text → Text → Text
  unfolding md5_hash colons
  calculate_response params ha1 method =
      let ha2 = md5_hash (colons (method ∷ param (codes "uri") params ∷ [])) in
      md5_hash (
        colons (
          ha1
          ∷ param (codes "nonce") params
          ∷ param (codes "nc") params
          ∷ param (codes "cnonce") params
          ∷ param (codes "qop") params
          ∷ ha2
          ∷ []))

  module _ (q : Sql) where
    -- What Wrap does once it has the user, or that there is none.
    unfoldable pub validate :
        DigestAuth → Assoc Text → Text → Text → Result (Text × Option User) → Outcome
    unfolding challenge calculate_response
    validate da params method nonce (err e) = failed e
    validate da params method nonce (ok (ha1, none)) = challenge da nonce
    validate da params method nonce (ok (ha1, some user)) =
        if param (codes "response") params =~ calculate_response params ha1 method
        then served (some user)
        else challenge da nonce

    -- Wrap: the header Authorization, the method, and the nonce for a challenge.
    unfoldable pub wrap : DigestAuth → q.Db → Text → Text → Text → Outcome
    unfolding validate parse_digest_header
    wrap da db header method nonce =
        let params = parse_digest_header header in
        let answer =
          validate da params method nonce
            (get_ha1_and_user q db (param (codes "username") params)) in
        if has_prefix header (codes "Digest ") then answer else challenge da nonce
