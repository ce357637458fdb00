-- ===== src/Server/Url/Mask.antt =====
-- What maskPassword lets through to the log.
use Prim.Native.String.{◌++◌, len, slice}
use text.Mathlib.TextLemmas.{append_assoc}
use text.Mathlib.TextPositions.{len-append, slice-append_left}
use soa_hw.Prelude.{◌<◌, ◌≡◌, refl, ◌∙◌, sym, subst, String, ltb-true, arith}
use soa_hw.Prelude.Texts.{slice-append}
use soa_hw.Server.Url.{dsn, mask_password}

-- The mask of a text that is longer than 20 bytes, from its beginning.
mask_of_start : (s t : String) → 20 < len s → mask_password (s ++ t) ≡ slice s 0 20 ++ "...***..."
unfolding mask_password
mask_of_start s t h =
    rw
      (
        ltb-true 20 (len (s ++ t)) (subst (λ n. 20 < n) (sym (len-append s t)) (omega (arith, h))),
        slice-append s t 20 (omega (arith, h)),
      )
      refl

-- The part of a connection string before the password.
abbrev before_password : String → String → String → String
before_password host port user =
    "host=" ++ host ++ " port=" ++ port ++ " user=" ++ user ++ " password="

dsn_parts :
    (host port user password dbname : String)
    → dsn host port user password dbname
      ≡ before_password host port user ++ (password ++ " dbname=" ++ dbname ++ " sslmode=disable")
dsn_parts host port user password dbname = simp append_assoc refl

before_password-len : (host port user : String) → 20 < len (before_password host port user)
before_password-len host port user = simp len-append (omega arith)

-- What is logged of a connection string does not depend on the password or the database.
pub mask_hides :
    (host port user password dbname password' dbname' : String)
    → mask_password (dsn host port user password dbname)
      ≡ mask_password (dsn host port user password' dbname')
mask_hides host port user password dbname password' dbname' =
    rw (dsn_parts host port user password dbname, dsn_parts host port user password' dbname')
      (mask_of_start (before_password host port user) _ (before_password-len host port user)
        ∙ sym
            (mask_of_start (before_password host port user) _ (before_password-len host port user)))

-- A URL is logged with its first 20 bytes: with a beginning `shown` of the password if the scheme, the
-- user, the colon and this beginning take up 20 bytes, and more follows.
pub mask_shows :
    (user shown rest : String)
    → len ("postgres://" ++ user ++ ":" ++ shown) ≡ 20
    → 0 < len rest
    → mask_password (("postgres://" ++ user ++ ":" ++ shown) ++ rest)
      ≡ ("postgres://" ++ user ++ ":" ++ shown) ++ "...***..."
unfolding mask_password
mask_shows user shown rest h more =
    rw
      (
        ltb-true 20 (len (text ++ rest)) longer,
        subst (λ n. slice (text ++ rest) 0 n ≡ text) h (slice-append_left text rest),
      )
      refl
  where
    text : String
    text = "postgres://" ++ user ++ ":" ++ shown

    longer : 20 < len (text ++ rest)
    longer = subst (λ n. 20 < n) (sym (len-append text rest)) (omega (arith, h, more))
