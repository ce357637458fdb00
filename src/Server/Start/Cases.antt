-- ===== src/Server/Start/Cases.antt =====
-- The ways in which the server starts or does not.
use soa_hw.Prelude.{
  ℕ, ◌<◌, ◌*◌, ◌≡◌, ◌≢◌, refl, ◌⊎◌, inl, inr, String, Option, none, some, List, [], ◌∷◌, ◌++◌, map,
}
use soa_hw.Server.Retry.{
  Attempt, connected, refused, opened, connect_with_retry, connect_with_retry_cases,
}
use soa_hw.Server.Url.{mask_password}
use soa_hw.Server.Config.{settings, minute}
use soa_hw.Server.Start.{
  MigrateError, no_change, other, MigrationsError, failed_to_create, failed_to_run, Event,
  connecting, connect_failed, established, migrating, migrations_applied, migrations_failed,
  starting, dialing, limit_pool, listen, Exit, cannot_connect, cannot_migrate, server_failed,
  returned, run_migrations, main,
}

module _ {E : Type 0} (create up : Option (MigrateError E)) where
  -- The migrations are up to date, whether or not there were any to run.
  abbrev pub Migrates : Type 0
  Migrates = (create ≡ none) × ((up ≡ none) ⊎ (up ≡ some no_change))

  -- The call that failed, with this error.
  abbrev pub FailsWith : MigrationsError E → Type 0
  FailsWith (failed_to_create e) = create ≡ some e
  FailsWith (failed_to_run e) = (create ≡ none) × (up ≡ some e) × (e ≢ no_change)

abbrev pub served_exit : {E : Type 0} → Option E → Exit E
served_exit none = returned
served_exit (some e) = server_failed e

module _ {E D : Type 0} (env : String → String) (connect : ℕ → Attempt E D)
    (create up : Option (MigrateError E)) (server : Option E) where
  -- The log before and during the attempts to connect, and what follows.
  abbrev pub logged : List Event → List Event
  logged events =
      connecting (mask_password (settings env).dsn)
      ∷ (map dialing (connect_with_retry connect 10).1 ++ events)

  abbrev pub connected_then : List Event → List Event
  connected_then events = logged (
      limit_pool 25 5 (5 * minute)
      ∷ established
      ∷ migrating (mask_password (env "DATABASE_URL"))
      ∷ events)

  -- The first connection is that of the attempt with this number.
  abbrev pub FirstConnects : ℕ → D → Type 0
  FirstConnects k db =
      (k < 10) × ((j : ℕ) → j < k → (e : E) × (connect j ≡ refused e)) × (connect k ≡ connected db)

  -- The three ways, with the error or exit and the events of each.
  pub data Starts (r : Exit E × List Event) : Type 0 where
    serves :
        (k : ℕ) (db : D)
        → FirstConnects k db
        → Migrates create up
        → r ≡ (
          served_exit server,
          connected_then
              (migrations_applied ∷ starting (settings env).addr ∷ listen (settings env).addr ∷ []),
        )
        → Starts r
    not_migrated :
        (k : ℕ) (db : D) (e : MigrationsError E)
        → FirstConnects k db
        → FailsWith create up e
        → r ≡ (cannot_migrate e, connected_then (migrations_failed ∷ []))
        → Starts r
    not_connected :
        (e : E)
        → ((j : ℕ) → j < 10 → (e' : E) × (connect j ≡ refused e'))
        → connect 9 ≡ refused e
        → r ≡ (
          cannot_connect (some e),
          logged (connect_failed (mask_password (settings env).dsn) ∷ []),
        )
        → Starts r

module _ {E D : Type 0} (env : String → String) (connect : ℕ → Attempt E D) where
  after_opened :
      (create up : Option (MigrateError E)) (server : Option E) (k : ℕ) (db : D)
      → FirstConnects env connect create up server k db
      → (connect_with_retry connect 10).0 ≡ opened db
      → Starts env connect create up server (main env connect create up server)
  unfolding main run_migrations
  after_opened (some e) up server k db first is_open =
      not_migrated k db (failed_to_create e) first refl (rw is_open)
  after_opened none none none k db first is_open = serves k db first (refl, inl refl) (rw is_open)
  after_opened none none (some e) k db first is_open =
      serves k db first (refl, inl refl) (rw is_open)
  after_opened none (some no_change) none k db first is_open =
      serves k db first (refl, inr refl) (rw is_open)
  after_opened none (some no_change) (some e) k db first is_open =
      serves k db first (refl, inr refl) (rw is_open)
  after_opened none (some (other e)) server k db first is_open =
      not_migrated k db (failed_to_run (other e)) first (refl, refl, λ h. cc) (rw is_open)

-- The server starts in one of three ways. It listens at the address of the settings if one of the
-- first ten attempts to connect succeeds and the migrations are up to date, and then its log says that
-- migrations were applied, also if there were none to run. It ends with the error of the migrations
-- and does not listen if one of them fails, and with the error of the tenth attempt if all ten fail;
-- then it neither migrates nor listens.
pub main_cases :
    {E D : Type 0} (env : String → String) (connect : ℕ → Attempt E D)
    (create up : Option (MigrateError E)) (server : Option E)
    → Starts env connect create up server (main env connect create up server)
unfolding main
main_cases env connect create up server = elim (connect_with_retry_cases connect 9) [
  | inl (k, db, less, before, success, run) ↦
      after_opened env connect create up server k db (less, before, success) run.0
  | inr (all, (e, last, run)) ↦ not_connected e all last (rw (run.0))
]
