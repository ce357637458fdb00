-- ===== src/Server/Tests.antt =====
-- Runs of the start-up code, and the theorems on it at concrete inputs.
mod History
use Prim.Native.String.{◌++◌}
use soa_hw.Prelude.{
  ℕ, zero, suc, ◌<◌, ◌≡◌, refl, ◌⊎◌, String, Option, none, some, true, str_eq, ◌*◌, arith,
  if◌then◌else◌,
}
use soa_hw.Prelude.Int.{ℤ, pos}
use soa_hw.Server.Retry.{
  Attempt, connected, refused, opened, connect_with_retry, ConnectsAt, GivesUpAt,
  connect_with_retry_cases,
}
use soa_hw.Server.Config.{Config, load, loaded, settings, minute, hour, settings_lem}
use soa_hw.Fixtures.{api, env, no_tables, crypto}
use soa_hw.Server.Router.{Endpoint, delete_product, dispatch}
use soa_hw.Server.Router.Access.{Treated, dispatch-Treated}
use soa_hw.Server.Start.{no_change, main}
use soa_hw.Server.Start.Cases.{Starts, main_cases}
use soa_hw.Server.Url.{split_once, strip_prefix, dsn, parse_database_url, mask_password}
use soa_hw.Server.Url.Parts.{url, parse_database_url_lem}
use soa_hw.Server.Url.Mask.{mask_shows}

parsed :
    parse_database_url "postgres://ann:pw@db:5433/shop?sslmode=require"
    ≡ "host=db port=5433 user=ann password=pw dbname=shop sslmode=disable"
unfolding parse_database_url split_once strip_prefix
parsed = refl

parsed_default_port :
    parse_database_url "postgres://ann@db/shop"
    ≡ "host=db port=5432 user=ann password= dbname=shop sslmode=disable"
unfolding parse_database_url split_once strip_prefix
parsed_default_port = refl

parse_database_url_lem_example :
    parse_database_url (url "ann" "p:w" "db" "5433" "shop" "sslmode=require")
    ≡ "host=" ++ "db" ++ " port=" ++ "5433" ++ " user=" ++ "ann" ++ " password=" ++ "p:w"
      ++ " dbname=" ++ "shop" ++ " sslmode=disable"
parse_database_url_lem_example =
    parse_database_url_lem "ann" "p:w" "db" "5433" "shop" "sslmode=require"
      (refl, (refl, (refl, tt))) (refl, (refl, (refl, tt))) (refl, (refl, (refl, tt)))
      (refl, (refl, tt)) (refl, (refl, tt)) (refl, (refl, (refl, (refl, tt))))
      (refl, (refl, (refl, (refl, tt))))

mask_shows_example :
    mask_password (("postgres://" ++ "app" ++ ":" ++ "secre") ++ "t@db/shop")
    ≡ ("postgres://" ++ "app" ++ ":" ++ "secre") ++ "...***..."
mask_shows_example = mask_shows "app" "secre" "t@db/shop" refl (omega arith)

-- A database that answers at the third attempt.
abbrev third : ℕ → Attempt String ℕ
third zero = refused "starting"
third (suc zero) = refused "starting"
third (suc (suc n)) = connected n

third_run : (connect_with_retry third 10).0 ≡ opened 0
unfolding connect_with_retry soa_hw.Server.Retry.attempts
third_run = refl

connect_with_retry_cases_example :
    ((k : ℕ) × (db : ℕ) × (k < 10)
      × ((j : ℕ) → j < k → (e : String) × (third j ≡ refused e))
      × (third k ≡ connected db)
      × ConnectsAt third 10 k db (connect_with_retry third 10))
    ⊎ (((j : ℕ) → j < 10 → (e : String) × (third j ≡ refused e))
        × GivesUpAt third 10 9 9 (connect_with_retry third 10))
connect_with_retry_cases_example = connect_with_retry_cases third 9

main_cases_example :
    Starts {E = String}
      (λ key. "")
      third
      none
      (some no_change)
      none
      (main (λ key. "") third none (some no_change) none)
main_cases_example = main_cases (λ key. "") third none (some no_change) none

-- Readers of the three defaults.
abbrev duration : String → Option ℤ
duration s = some (if str_eq s "30m" then pos (30 * minute) else pos (168 * hour))

settings_lem_example :
    (cfg : Config) × (load duration (λ s. some (pos 5)) (λ key. "") ≡ loaded cfg)
    × ((settings (λ key. "")).jwt_secret ≡ cfg.jwt_secret)
    × ((settings (λ key. "")).addr ≡ ":" ++ cfg.server_port)
    × ((settings (λ key. "")).access_expiry ≡ cfg.jwt_access_expiry)
    × ((settings (λ key. "")).refresh_expiry ≡ cfg.jwt_refresh_expiry)
    × ((settings (λ key. "")).rate_limit_minutes ≡ cfg.rate_limit_minutes)
settings_lem_example =
    settings_lem duration (λ s. some (pos 5)) (λ key. "") refl refl refl refl refl refl

abbrev request : Endpoint ℕ
request = delete_product "7"

dispatch-Treated_example :
    Treated crypto
      (settings (λ key. ""))
      env
      api
      (λ n rows. rows)
      (λ text. none)
      request
      "Bearer t"
      no_tables
      (dispatch crypto
        (settings (λ key. ""))
        env
        api
        (λ n rows. rows)
        (λ text. none)
        request
        "Bearer t"
        no_tables)
dispatch-Treated_example =
    dispatch-Treated crypto (settings (λ key. "")) env api (λ n rows. rows) (λ text. none) request
      "Bearer t" no_tables
