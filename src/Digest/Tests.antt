-- ===== src/Digest/Tests.antt =====
-- A client, and a header, at a concrete table of users.
use juicemud.Base.{ℕ, ◌≡◌, refl, [], ◌∷◌, ◌++◌, List, Text, codes, some, false, ◌=~◌, insert}
use juicemud.Files.{User}
use juicemud.Files.Memory.{Tables, tables}
use juicemud.Digest.{DigestAuth, served, wrap, compute_ha1, parse_digest_header}
use juicemud.Digest.Header.{fields, insert_all, parse_digest_header-fields, all}
use juicemud.Digest.Guard.{IsAnswered, client_fields, wrap-served, wrap-honest}

-- A hash for tests: the sum of the bytes.
abbrev digest : List ℕ → List ℕ
digest [] = 0 ∷ []
digest (b ∷ bs) = b ∷ []

abbrev name : Text
name = codes "ann"

abbrev ann : User
ann = record { id = 1; name = name; password_hash = codes "61"; owner = false; object = [] }

abbrev users : Tables
users = record { files = []; syncs = []; groups = []; users = ann ∷ []; members = [] }

abbrev auth : DigestAuth
auth = record { realm = codes "mud"; opaque = codes "o" }

parse_digest_header-fields_example :
    parse_digest_header (codes "Digest username=\"ann\", uri=\"/\"")
    ≡ (codes "username", name) ∷ (codes "uri", codes "/") ∷ []
unfolding fields insert_all insert ◌=~◌ all
parse_digest_header-fields_example =
    parse_digest_header-fields (codes "username", name) ((codes "uri", codes "/") ∷ [])
      (refl, refl, (refl, refl, tt))

wrap-honest_example :
    wrap digest tables auth users
      (codes "Digest "
        ++ fields
            (codes "username", name)
            (client_fields digest tables name
              (codes "mud")
              (codes "pw")
              (codes "GET")
              (codes "/")
              (codes "n")
              (codes "1")
              (codes "c")
              (codes "auth")))
      (codes "GET")
      (codes "f")
    ≡ served (some ann)
unfolding all compute_ha1 ◌=~◌
wrap-honest_example =
    wrap-honest digest tables auth users ann (codes "mud") (codes "pw") (codes "GET") (codes "/")
      (codes "n") (codes "1") (codes "c") (codes "auth") (codes "f") refl refl
      (refl, (refl, (refl, (refl, (refl, (refl, (refl, tt)))))))

wrap-served_example :
    IsAnswered digest tables users
      (codes "Digest "
        ++ fields
            (codes "username", name)
            (client_fields digest tables name
              (codes "mud")
              (codes "pw")
              (codes "GET")
              (codes "/")
              (codes "n")
              (codes "1")
              (codes "c")
              (codes "auth")))
      (codes "GET")
      ann
wrap-served_example =
    (wrap-served digest tables auth users _ (codes "GET") (codes "f") ann).0 wrap-honest_example
