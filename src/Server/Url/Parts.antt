-- ===== src/Server/Url/Parts.antt =====
-- The connection string that a URL with all its parts becomes.
use Prim.Native.String.{[], ◌∷◌, ◌++◌}
use Prim.Native.Char.{Char, code}
use text.Mathlib.TextLemmas.{cons-append, nil-append}
use soa_hw.Prelude.{◌≡◌, refl, String, str_eq, false, none, some, ◌==◌, ==_refl}
use soa_hw.Prelude.Texts.{nonempty_at, one-append}
use soa_hw.Server.Url.{strip_prefix, split_once, parse_database_url}

-- The character is not in the text.
abbrev pub Lacks : Char → String → Type 0
Lacks d [] = Unit
Lacks d (c ∷ s) = ((code d == code c) ≡ false) × Lacks d s

strip_one : (d : Char) (s : String) → strip_prefix (d ∷ []) (d ∷ s) ≡ some s
unfolding strip_prefix
strip_one d s = rw (==_refl (code d)) refl

strip_other :
    (d c : Char) (s : String) → (code d == code c) ≡ false → strip_prefix (d ∷ []) (c ∷ s) ≡ none
unfolding strip_prefix
strip_other d c s h = rw h refl

-- The first separator is the one after a text without it.
split_once_at :
    (d : Char) (a b : String) → Lacks d a → split_once (a ++ (d ∷ b)) (d ∷ []) ≡ (a, some b)
unfolding split_once
split_once_at d [] b h = rw (nil-append (d ∷ b), strip_one d b) refl
split_once_at d (c ∷ a) b h =
    rw (cons-append c a (d ∷ b), strip_other d c (a ++ (d ∷ b)) h.0, split_once_at d a b h.1) refl

-- The same with the separator as a text of one character.
split_once_text :
    (d : Char) (a b : String) → Lacks d a → split_once (a ++ (d ∷ []) ++ b) (d ∷ []) ≡ (a, some b)
split_once_text d a b h = rw (one-append d b) (split_once_at d a b h)

Lacks-append : (d : Char) (a b : String) → Lacks d a → Lacks d b → Lacks d (a ++ b)
Lacks-append d [] b h k = rw (nil-append b) k
Lacks-append d (c ∷ a) b h k = rw (cons-append c a b) (h.0, Lacks-append d a b h.1 k)

strip_prefix_lem : (p s : String) → strip_prefix p (p ++ s) ≡ some s
unfolding strip_prefix
strip_prefix_lem [] s = rw (nil-append s) refl
strip_prefix_lem (a ∷ p) s = rw (cons-append a p s, ==_refl (code a)) (strip_prefix_lem p s)

nonempty_text : (a : String) (d : Char) (b : String) → str_eq (a ++ (d ∷ []) ++ b) "" ≡ false
nonempty_text a d b = rw (one-append d b) (nonempty_at a d b)

-- A URL with all its parts.
abbrev pub url : String → String → String → String → String → String → String
url user password host port dbname params =
    "postgres://"
    ++ (user ++ ":" ++ password)
    ++ "@"
    ++ (host ++ ":" ++ port)
    ++ "/"
    ++ (dbname ++ "?" ++ params)

-- A URL whose parts do not contain the separator that ends them becomes a connection string of the same
-- user, password, host, port and database; its parameters are dropped, whatever they are, and TLS is
-- disabled. Passwords may contain a colon, a slash or a question mark, but no "@".
pub parse_database_url_lem :
    (user password host port dbname params : String)
    → Lacks ":" user
    → Lacks "@" user
    → Lacks "@" password
    → Lacks ":" host
    → Lacks "/" host
    → Lacks "/" port
    → Lacks "?" dbname
    → parse_database_url (url user password host port dbname params)
      ≡ "host=" ++ host ++ " port=" ++ port ++ " user=" ++ user ++ " password=" ++ password
        ++ " dbname=" ++ dbname ++ " sslmode=disable"
unfolding parse_database_url
parse_database_url_lem user password host port dbname params u u' p h h' o d =
    rw
      (
        strip_prefix_lem "postgres://" after,
        nonempty_text (user ++ ":" ++ password) "@" hosts,
        split_once_text "@" (user ++ ":" ++ password) hosts (
            Lacks-append "@" user (":" ++ password) u'
              (Lacks-append "@" ":" password (refl, tt) p)),
        split_once_text ":" user password u,
        split_once_text "/" (host ++ ":" ++ port) (dbname ++ "?" ++ params)
            (Lacks-append "/" host (":" ++ port) h' (Lacks-append "/" ":" port (refl, tt) o)),
        split_once_text ":" host port h,
        split_once_text "?" dbname params d,
      )
      refl
  where
    hosts : String
    hosts = (host ++ ":" ++ port) ++ "/" ++ (dbname ++ "?" ++ params)

    after : String
    after = (user ++ ":" ++ password) ++ "@" ++ hosts
