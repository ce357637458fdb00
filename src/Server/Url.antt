-- ===== src/Server/Url.antt =====
-- parseDatabaseURL, splitOnce and maskPassword of cmd/server/main.go.
pub mod Parts
pub mod Mask
use Prim.Native.String.{[], ◌∷◌, ◌++◌, len, slice}
use Prim.Native.Char.{Char, code}
use soa_hw.Prelude.{
  ℕ, ◌≡◌, refl, String, str_eq, Bool, true, false, ◌&&◌, ltb, Option, none, some, if◌then◌else◌,
  ◌==◌,
}

-- The rest of a text after a prefix, if it begins with it.
unfoldable pub strip_prefix : String → String → Option String
strip_prefix [] s = some s
strip_prefix (a ∷ p) [] = none
strip_prefix (a ∷ p) (c ∷ s) =
    let rest = strip_prefix p s in if code a == code c then rest else none

-- The parts of `c ∷ s`: the cut here if the separator stands here, and else the cut in `s`.
abbrev pub cut_at : Char → Option String → String × Option String → String × Option String
cut_at c (some rest) later = ([], some rest)
cut_at c none later = (c ∷ later.0, later.1)

-- `splitOnce`: the part before the first separator, and the part after it if there is one.
unfoldable pub split_once : String → String → String × Option String
split_once [] sep = ([], none)
split_once (c ∷ s) sep = cut_at c (strip_prefix sep (c ∷ s)) (split_once s sep)

abbrev pub or_default : Option String → String → String
or_default none default = default
or_default (some s) default = s

-- `fmt.Sprintf("host=%s port=%s user=%s password=%s dbname=%s sslmode=disable", ...)`
abbrev pub dsn : String → String → String → String → String → String
dsn host port user password dbname =
    "host=" ++ host ++ " port=" ++ port ++ " user=" ++ user ++ " password=" ++ password
    ++ " dbname=" ++ dbname ++ " sslmode=disable"

-- The two sides of the first "@".
abbrev pub dsn_of : String → String → String
dsn_of user_pass host_port_db =
    let user_pass_parts = split_once user_pass ":" in
    let host_port_db_parts = split_once host_port_db "/" in
    let host_port_parts = split_once host_port_db_parts.0 ":" in
    let db_params_parts = split_once (or_default host_port_db_parts.1 "") "?" in
    dsn host_port_parts.0 (or_default host_port_parts.1 "5432") user_pass_parts.0
      (or_default user_pass_parts.1 "") db_params_parts.0

abbrev pub after_user : String → String × Option String → String
after_user database_url (user_pass, none) = database_url
after_user database_url (user_pass, some host_port_db) = dsn_of user_pass host_port_db

-- The rest after the scheme, if there is one. The URL is longer than the scheme and begins with it if
-- that rest is not empty.
abbrev pub after_scheme : String → Option String → String
after_scheme database_url none = database_url
after_scheme database_url (some rest) =
    if str_eq rest "" then database_url else after_user database_url (split_once rest "@")

unfoldable pub parse_database_url : String → String
parse_database_url database_url =
    after_scheme database_url (strip_prefix "postgres://" database_url)

unfoldable pub mask_password : String → String
mask_password dsn = if ltb 20 (len dsn) then slice dsn 0 20 ++ "...***..." else "***"
