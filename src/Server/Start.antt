-- ===== src/Server/Start.antt =====
-- The start of the server: runMigrations and `main` of cmd/server/main.go up to the return of
-- ListenAndServe. What the libraries answer is given: the driver's answer to each attempt to connect,
-- the errors of migrate.New and of m.Up(), and the error of http.ListenAndServe. Durations are in
-- nanoseconds.
pub mod Cases
use soa_hw.Prelude.{
  ℕ, ◌*◌, String, Bool, true, false, Option, none, some, List, [], ◌∷◌, ◌++◌, map, if◌then◌else◌,
}
use soa_hw.Server.Retry as Retry
use soa_hw.Server.Retry.{Attempt, Outcome, opened, gave_up, connect_with_retry}
use soa_hw.Server.Url.{mask_password}
use soa_hw.Server.Config.{Settings, settings, minute}

-- An error of golang-migrate.
pub data MigrateError (E : Type 0) : Type 0 where
  no_change : MigrateError E
  other : E → MigrateError E

-- The errors of runMigrations.
pub data MigrationsError (E : Type 0) : Type 0 where
  failed_to_create failed_to_run : MigrateError E → MigrationsError E

-- What is seen from outside, in order.
pub data Event : Type 0 where
  -- the log lines
  connecting connect_failed : String → Event
  established : Event
  migrating : String → Event
  no_new_migrations migrations_applied migrations_failed : Event
  starting : String → Event
  -- the attempts to connect, and the limits of the pool
  dialing : Retry.Event → Event
  limit_pool : ℕ → ℕ → ℕ → Event
  -- http.ListenAndServe
  listen : String → Event

-- How `main` ends: log.Fatalf with an error, or a return.
pub data Exit (E : Type 0) : Type 0 where
  cannot_connect : Option E → Exit E
  cannot_migrate : MigrationsError E → Exit E
  server_failed : E → Exit E
  returned : Exit E

module _ {E : Type 0} where
  -- `err == migrate.ErrNoChange`
  abbrev pub is_no_change : Option (MigrateError E) → Bool
  is_no_change none = false
  is_no_change (some no_change) = true
  is_no_change (some (other e)) = false

  -- The end of runMigrations, with the `err` that is in scope there.
  abbrev pub report_migrations : Option (MigrateError E) → Option (MigrationsError E) × List Event
  report_migrations error =
      (none, (if is_no_change error then no_new_migrations else migrations_applied) ∷ [])

  -- `err` is that of migrate.New; the one of m.Up() is scoped to its `if`.
  abbrev pub migrate_up :
      Option (MigrateError E) → Option (MigrateError E) → Option (MigrationsError E) × List Event
  migrate_up error none = report_migrations error
  migrate_up error (some no_change) = report_migrations error
  migrate_up error (some (other e)) = (some (failed_to_run (other e)), [])

  abbrev pub after_create :
      Option (MigrateError E) → Option (MigrateError E) → Option (MigrationsError E) × List Event
  after_create (some e) up = (some (failed_to_create e), [])
  after_create none up = migrate_up none up

  unfoldable pub run_migrations :
      String
      → Option (MigrateError E)
      → Option (MigrateError E)
      → Option (MigrationsError E) × List Event
  run_migrations url create up =
      let (error, events) = after_create create up in
      (error, migrating (mask_password url) ∷ events)

  abbrev pub serve : String → Option E → Exit E × List Event
  serve addr none = (returned, starting addr ∷ listen addr ∷ [])
  serve addr (some e) = (server_failed e, starting addr ∷ listen addr ∷ [])

  abbrev pub after_migrations : String → Option E → Option (MigrationsError E) → Exit E × List Event
  after_migrations addr server none = serve addr server
  after_migrations addr server (some e) = (cannot_migrate e, migrations_failed ∷ [])

module _ {E D : Type 0} (env : String → String) (connect : ℕ → Attempt E D)
    (create up : Option (MigrateError E)) (server : Option E) where
  -- `main` once connectWithRetry has returned.
  abbrev pub after_connect : Outcome E D → Exit E × List Event
  after_connect (gave_up n error) =
      (cannot_connect error, connect_failed (mask_password (settings env).dsn) ∷ [])
  after_connect (opened db) =
      let (error, migration_events) = run_migrations (env "DATABASE_URL") create up in
      let (exit, events) = after_migrations (settings env).addr server error in
      (exit, limit_pool 25 5 (5 * minute) ∷ established ∷ (migration_events ++ events))

  unfoldable pub main : Exit E × List Event
  main =
      let (outcome, attempts) = connect_with_retry connect 10 in
      let (exit, events) = after_connect outcome in
      (exit, connecting (mask_password (settings env).dsn) ∷ (map dialing attempts ++ events))
