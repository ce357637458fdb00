-- ===== src/Server/Retry.antt =====
-- connectWithRetry of cmd/server/main.go. `connect i` is what the driver answers to the attempt `i`;
-- for a limit below zero the loop does not run, as for zero.
use soa_hw.Prelude.{
  ℕ, zero, suc, ◌+◌, ◌-◌, ◌<◌, ◌≤◌, ◌≡◌, refl, ap, ◌⊎◌, inl, inr, Option, none, some, List, [], ◌∷◌,
  Bool, true, false, subst, ltb, ltb-true, ltb-false, if◌then◌else◌, count, arith,
}

-- What the driver answers.
pub data Attempt (E D : Type 0) : Type 0 where
  connected : D → Attempt E D
  refused : E → Attempt E D

-- What connectWithRetry does, in order: it dials, logs a failure with the number of the attempt, or
-- sleeps.
pub data Event : Type 0 where
  dial sleep : Event
  report : ℕ → Event

-- The result: a connection, or the number of attempts and the last error, if there was one.
pub data Outcome (E D : Type 0) : Type 0 where
  opened : D → Outcome E D
  gave_up : ℕ → Option E → Outcome E D

module _ {E D : Type 0} (connect : ℕ → Attempt E D) (max_retries : ℕ) where
  -- What follows a failed attempt, before the next.
  abbrev pub pause : ℕ → List Event → List Event
  pause i rest = report (i + 1) ∷ (if ltb i (max_retries - 1) then sleep ∷ rest else rest)

  abbrev pub after :
      ℕ → Attempt E D → (Option E → Outcome E D × List Event) → Outcome E D × List Event
  after i (connected db) retry = (opened db, [])
  after i (refused e) retry = let (outcome, events) = retry (some e) in (outcome, pause i events)

  -- The loop from attempt `i`, with this many attempts left, after this error.
  unfoldable pub attempts : ℕ → ℕ → Option E → Outcome E D × List Event
  attempts zero i error = (gave_up max_retries error, [])
  attempts (suc left) i error =
      let (outcome, events) = after i (connect i) (attempts left (i + 1)) in
      (outcome, dial ∷ events)

  unfoldable pub connect_with_retry : Outcome E D × List Event
  connect_with_retry = attempts max_retries 0 none

abbrev pub is_dial : Event → Bool
is_dial dial = true
is_dial _ = false

abbrev pub is_sleep : Event → Bool
is_sleep sleep = true
is_sleep _ = false

Attempt-cases :
    {E D : Type 0} (a : Attempt E D) → ((db : D) × (a ≡ connected db)) ⊎ ((e : E) × (a ≡ refused e))
Attempt-cases (connected db) = inl (db, refl)
Attempt-cases (refused e) = inr (e, refl)

below_or_at : (j n : ℕ) → j < suc n → (j < n) ⊎ (n ≡ j)
below_or_at j n less = ground arith

module _ {E D : Type 0} (connect : ℕ → Attempt E D) (max_retries : ℕ) where
  abbrev Fails : ℕ → Type 0
  Fails i = (e : E) × (connect i ≡ refused e)

  all_fail : (n : ℕ) → ((j : ℕ) → j < n → Fails j) → Fails n → (j : ℕ) → j < suc n → Fails j
  all_fail n before last j less = elim (below_or_at j n less) [
    | inl l ↦ before j l
    | inr e ↦ subst Fails e last
  ]

  -- It connects, at the attempt with this number (from zero), and has slept after each attempt before.
  abbrev pub ConnectsAt : ℕ → D → Outcome E D × List Event → Type 0
  ConnectsAt k db r = (r.0 ≡ opened db) × (count is_dial r.1 ≡ suc k) × (count is_sleep r.1 ≡ k)

  after_success :
      (i left : ℕ) (error : Option E) (db : D)
      → connect i ≡ connected db
      → ConnectsAt 0 db (attempts connect max_retries (suc left) i error)
  unfolding attempts
  after_success i left error db h = rw h (refl, refl, refl)

  after_failure :
      (i left k : ℕ) (error : Option E) (e : E) (db : D)
      → connect i ≡ refused e
      → i < max_retries - 1
      → ConnectsAt k db (attempts connect max_retries left (i + 1) (some e))
      → ConnectsAt (suc k) db (attempts connect max_retries (suc left) i error)
  unfolding attempts
  after_failure i left k error e db h more r =
      rw (h, ltb-true i (max_retries - 1) more) (r.0, ap suc r.1, ap suc r.2)

  attempts_connect :
      (k left i : ℕ) (error : Option E) (db : D)
      → i + left ≡ max_retries
      → k < left
      → ((j : ℕ) → j < k → Fails (i + j))
      → connect (i + k) ≡ connected db
      → ConnectsAt k db (attempts connect max_retries left i error)
  attempts_connect k zero i error db all lt fails h = absurd (omega (arith, lt))
  attempts_connect zero (suc left) i error db all lt fails h =
      after_success i left error db (subst (λ n. connect n ≡ connected db) (omega arith) h)
  attempts_connect (suc k) (suc left) i error db all lt fails h =
      let failure : Fails i = subst Fails (omega arith) (fails 0 (omega arith)) in
      after_failure i left k error failure.0 db failure.1 (omega (arith, all, lt)) (
        attempts_connect k left (i + 1) (some failure.0) db (omega (arith, all)) (omega (arith, lt))
          (λ j less. subst Fails (omega arith) (fails (suc j) (omega (arith, less))))
          (subst (λ n. connect n ≡ connected db) (omega arith) h))

  -- It gives up with this error, after this many attempts and one sleep less.
  abbrev pub GivesUp : ℕ → E → Outcome E D × List Event → Type 0
  GivesUp tried e r =
      (r.0 ≡ gave_up max_retries (some e))
      × (count is_dial r.1 ≡ suc tried)
      × (count is_sleep r.1 ≡ tried)

  after_last :
      (i : ℕ) (error : Option E) (e : E)
      → connect i ≡ refused e
      → max_retries - 1 ≤ i
      → GivesUp 0 e (attempts connect max_retries 1 i error)
  unfolding attempts
  after_last i error e h last = rw (h, ltb-false i (max_retries - 1) last) (refl, refl, refl)

  before_last :
      (i left k : ℕ) (error : Option E) (e e' : E)
      → connect i ≡ refused e
      → i < max_retries - 1
      → GivesUp k e' (attempts connect max_retries left (i + 1) (some e))
      → GivesUp (suc k) e' (attempts connect max_retries (suc left) i error)
  unfolding attempts
  before_last i left k error e e' h more r =
      rw (h, ltb-true i (max_retries - 1) more) (r.0, ap suc r.1, ap suc r.2)

  -- It gives up with the error of the attempt `last`.
  abbrev pub GivesUpAt : ℕ → ℕ → Outcome E D × List Event → Type 0
  GivesUpAt last tried r = (e : E) × (connect last ≡ refused e) × GivesUp tried e r

  attempts_give_up :
      (left i last : ℕ) (error : Option E)
      → i + left ≡ last
      → max_retries ≡ suc last
      → ((j : ℕ) → j ≤ left → Fails (i + j))
      → GivesUpAt last left (attempts connect max_retries (suc left) i error)
  attempts_give_up zero i last error at_last all fails =
      let failure : Fails i = subst Fails (omega arith) (fails 0 (omega arith)) in
      (
        failure.0,
        subst (λ n. connect n ≡ refused failure.0) i_is_last failure.1,
        after_last i error failure.0 failure.1 (omega (arith, at_last, all)),
      )
    where
      i_is_last : i ≡ last
      i_is_last = omega (arith, at_last)
  attempts_give_up (suc left) i last error at_last all fails =
      let failure : Fails i = subst Fails (omega arith) (fails 0 (omega arith)) in
      let (e, of_last, r) =
        attempts_give_up left (i + 1) last (some failure.0) (omega (arith, at_last)) all
          (λ j less. subst Fails (omega arith) (fails (suc j) (omega (arith, less)))) in
      (
        e,
        of_last,
        before_last i (suc left) left error failure.0 e failure.1 (omega (arith, at_last, all)) r,
      )

  -- The first attempt that succeeds, of the first `n`, if one does.
  first_success :
      (n : ℕ)
      → ((k : ℕ) × (db : D) × (k < n) × ((j : ℕ) → j < k → Fails j) × (connect k ≡ connected db))
        ⊎ ((j : ℕ) → j < n → Fails j)
  first_success zero = inr λ j less. absurd (omega (arith, less))
  first_success (suc n) = elim (first_success n) [
    | inl (k, db, less, before, now) ↦ inl (k, db, omega (arith, less), before, now)
    | inr before ↦ elim (Attempt-cases (connect n)) [
      | inl (db, now) ↦ inl (n, db, omega arith, before, now)
      | inr failure ↦ inr (all_fail n before failure)
    ]
  ]

-- connectWithRetry with a limit above zero returns after at most as many attempts as the limit says.
-- It returns the connection of the first attempt that succeeds, say number `k` from zero, and has then
-- dialed `k + 1` times and slept `k` times; or every attempt below the limit fails, and it gives up
-- with the last error and has not slept after the last attempt.
pub connect_with_retry_cases :
    {E D : Type 0} (connect : ℕ → Attempt E D) (tried : ℕ)
    → ((k : ℕ) × (db : D) × (k < suc tried)
        × ((j : ℕ) → j < k → (e : E) × (connect j ≡ refused e))
        × (connect k ≡ connected db)
        × ConnectsAt connect (suc tried) k db (connect_with_retry connect (suc tried)))
      ⊎ (((j : ℕ) → j < suc tried → (e : E) × (connect j ≡ refused e))
          × GivesUpAt connect (suc tried) tried tried (connect_with_retry connect (suc tried)))
unfolding connect_with_retry
connect_with_retry_cases connect tried = elim (first_success connect (suc tried) (suc tried)) [
  | inl (k, db, less, before, now) ↦ inl (
    k,
    db,
    less,
    before,
    now,
    attempts_connect connect (suc tried) k (suc tried) 0 none db (omega arith) less
        (λ j l. subst (λ n. (e : _) × (connect n ≡ refused e)) (omega arith) (before j l))
        (subst (λ n. connect n ≡ connected db) (omega arith) now),
  )
  | inr fails ↦ inr (
    fails,
    attempts_give_up connect (suc tried) tried 0 tried none (omega arith) refl (λ j l.
        subst (λ n. (e : _) × (connect n ≡ refused e)) (omega arith) (fails j (omega (arith, l)))),
  )
]
