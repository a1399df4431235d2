-- ===== src/Dav.antt =====
-- dav/dav.go: a WebDAV handler over a file system, with locks by path. A request comes with what the
-- handler takes from outside: the time and the token that it would generate. The text of an error
-- page, the headers of a response and its XML are not modelled, nor are errors of the connection.
pub mod Timeout
pub mod Handlers
pub mod Locking
mod Tests
use juicemud.Base.{
  ℕ, ◌+◌, ◌≡◌, Bool, true, false, ◌&&◌, List, [], ◌∷◌, ◌++◌, Option, none, some, Text, ◌=~◌,
  is_empty, not, codes, Error, Result, if◌then◌else◌, Assoc, lookup,
}
use juicemud.Dbm.{Bytes}

-- A time is in nanoseconds; `none` is the zero time.
pub record FileInfo : Type 0 where
  pub name : Text
  pub size : ℕ
  pub mod_time : Option ℕ
  pub is_dir : Bool

-- The interface FileSystem, in the context of one request. What Write gives collects what is
-- written, and Close stores it.
pub record FileSystem : Type 1 where
  pub S : Type 0
  pub Writer : Type 0
  pub read : S → Text → Result Bytes
  pub write : S → Text → S × Result Writer
  pub collect : Writer → Bytes → Writer
  pub close : S → Writer → S × Result (Unit {0})
  pub stat : S → Text → Result FileInfo
  pub remove : S → Text → S × Result (Unit {0})
  pub mkdir : S → Text → S × Result (Unit {0})
  pub list : S → Text → Result (List FileInfo)
  pub rename : S → Text → Text → S × Result (Unit {0})

pub record Lock : Type 0 where
  pub token : Text
  pub owner : Text
  pub expires_at : ℕ

pub record Request : Type 0 where
  pub method : Text
  pub path : Text
  pub body : Bytes
  pub if_header : Text
  pub depth : Text
  pub destination : Text
  pub timeout : Text
  pub lock_token : Text
  -- What `time.Now` and `generateToken` give.
  pub now : ℕ
  pub fresh_token : Text

pub record DavResponse : Type 0 where
  pub href : Text
  pub display_name : Text
  pub collection : Bool
  pub content_length : ℕ
  pub last_modified : Option ℕ

pub data Body : Type 0 where
  nothing : Body
  content : Bytes → Body
  links : List Text → Body
  multistatus : List DavResponse → Body
  active_lock : Text → Text → ℕ → Body

-- The status, the body, and the error that ServeHTTP logs.
pub record Response : Type 0 where
  pub status : ℕ
  pub body : Body
  pub logged : Option Error

-- http.Error with no error for the log, or with one
abbrev pub fails : ℕ → Response
fails n = record { status = n; body = nothing; logged = none }

abbrev pub fails_with : ℕ → Error → Response
fails_with n e = record { status = n; body = nothing; logged = some e }

abbrev pub answers : ℕ → Body → Response
answers n b = record { status = n; body = b; logged = none }

abbrev pub ends_in_slash : Text → Bool
ends_in_slash [] = false
ends_in_slash (c ∷ []) = c ∷ [] =~ b'/' ∷ []
ends_in_slash (c ∷ d ∷ t) = ends_in_slash (d ∷ t)

-- createDavResponse
pub create_dav_response : Text → FileInfo → DavResponse
create_dav_response href info = record {
  href = if info.is_dir && not (ends_in_slash href) then href ++ b'/' ∷ [] else href;
  display_name = if is_empty info.name && info.is_dir then b'/' ∷ [] else info.name;
  collection = info.is_dir;
  content_length = info.size;
  last_modified = info.mod_time;
}
