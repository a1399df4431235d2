-- ===== src/Fs/Tests.antt =====
-- Paths that pathify has made.
use juicemud.Base.{◌≡◌, refl, true, ◌++◌, ◌∷◌, [], codes, is_empty}
use juicemud.Fs.Pathify.{pathify, starts_with_slash, ends_in_slash, pathify-rooted}

pathify-rooted_example :
    (starts_with_slash (pathify (codes "a/b")) ≡ true)
    × (pathify (codes "a/b" ++ b'/' ∷ []) ≡ pathify (codes "a/b"))
    × (pathify (pathify (codes "a/b")) ≡ pathify (codes "a/b"))
unfolding ends_in_slash is_empty
pathify-rooted_example = pathify-rooted (codes "a/b") refl
