-- ===== src/Store/Statements.antt =====
-- The rules of the logic for statements and transactions.
use soa_hw.Prelude.{ℕ, ◌≡◌, refl, sym, ◌∙◌, subst, Bool, true, false, none, some, if◌then◌else◌}
use soa_hw.Store.{Env, Db, Tx, World}
use soa_hw.Store.Action.{
  Result, ok, err, driver, Sql, nil_tx, the_tx, exec, begin_tx, commit, commit_work, count_call,
  after_db, after_tx, in_tx,
}
use soa_hw.Store.Outcome.{Ends, Triple, Outside, Inside, IsSteady, Returns}

module _ {F : Type 0} {A : Type 0} (db : Db F) where
  Ends-read :
      (P : World F → Type 0) (R : A → Type 0) (w : World F) (b : Bool) (r : Result (A × Db F))
      → P (count_call w)
      → w.db ≡ db
      → ((a : A) (d : Db F) → r ≡ ok (a, d) → (d ≡ db) × R a)
      → Ends db (Returns P R) (if b then (err driver, count_call w) else after_db (count_call w) r)
  Ends-read P R w true r p e h = e
  Ends-read P R w false (err x) p e h = e
  Ends-read P R w false (ok (a, d)) p e h =
      let (same, result) = h a d refl in
      (subst (λ x. P (record (count_call w) { db = x })) (e ∙ sym same) p, result)

  Ends-commit_alone :
      (Q : A → Db F → Type 0) (w : World F) (b : Bool) (r : Result (A × Db F))
      → w.db ≡ db
      → ((a : A) (d : Db F) → r ≡ ok (a, d) → Q a d)
      → Ends db
          (λ a w'. Q a w'.db)
          (if b then (err driver, count_call w) else after_db (count_call w) r)
  Ends-commit_alone Q w true r e h = e
  Ends-commit_alone Q w false (err x) e h = e
  Ends-commit_alone Q w false (ok (a, d)) e h = h a d refl

  Ends-write :
      (Q : A → Db F → Type 0) (w : World F) (t : Tx F) (b : Bool) (r : Result (A × Db F))
      → w.db ≡ db
      → ((a : A) (d : Db F) → r ≡ ok (a, d) → Q a d)
      → Ends db
          (λ a. Inside db (Q a))
          (if b then (err driver, count_call w) else after_tx (count_call w) t r)
  Ends-write Q w t true r e h = e
  Ends-write Q w t false (err x) e h = e
  Ends-write Q w t false (ok (a, d)) e h = record {
    same = e;
    trans = record t { work = d };
    opened = refl;
    holds = h a d refl;
  }

module _ {F : Type 0} (env : Env F) where
  module _ {A : Type 0} {db : Db F} where
    -- A statement that only reads, on the pool, returns what it reads in the committed tables.
    pub Triple-exec_read :
        {P : World F → Type 0} (s : Sql F A) (R : A → Type 0)
        → IsSteady db P
        → ((n : ℕ) (a : A) (d : Db F) → s n db ≡ ok (a, d) → (d ≡ db) × R a)
        → Triple db P (exec env nil_tx s) (Returns P R)
    unfolding exec
    Triple-exec_read {P = P} s R steady h = record {
      run = λ w p.
          Ends-read db P R w (env.fails w.calls) (s (env.db_now w.calls) w.db) (steady.counted w p)
            (steady.same w p)
            (subst (λ x. (a : A) (d : Db F) → s (env.db_now w.calls) x ≡ ok (a, d) → (d ≡ db) × R a)
              (sym (steady.same w p)) (h (env.db_now w.calls)));
    }

    -- A query returns a value of the committed tables.
    pub Triple-exec_select :
        {P : World F → Type 0} (s : Sql F A) (a : A)
        → IsSteady db P
        → ((n : ℕ) → s n db ≡ ok (a, db))
        → Triple db P (exec env nil_tx s) (Returns P (λ b. a ≡ b))
    Triple-exec_select s a steady h =
        Triple-exec_read s (λ b. a ≡ b) steady (λ n b d e. (cc (h n), cc (h n)))

    -- A statement that writes, on the pool, commits what it writes.
    pub Triple-exec_commit :
        (s : Sql F A) (Q : A → Db F → Type 0)
        → ((n : ℕ) (a : A) (d : Db F) → s n db ≡ ok (a, d) → Q a d)
        → Triple db (Outside db) (exec env nil_tx s) (λ a w. Q a w.db)
    unfolding exec
    Triple-exec_commit s Q h = record {
      run = λ w p.
          Ends-commit_alone db Q w (env.fails w.calls) (s (env.db_now w.calls) w.db) p.same (
            subst (λ x. (a : A) (d : Db F) → s (env.db_now w.calls) x ≡ ok (a, d) → Q a d)
              (sym p.same) (h (env.db_now w.calls)));
    }

    -- A statement in the transaction acts on the tables that the transaction sees.
    pub Triple-exec_write :
        (s : Sql F A) (P : Db F → Type 0) (Q : A → Db F → Type 0)
        → ((n : ℕ) (a : A) (d d' : Db F) → P d → s n d ≡ ok (a, d') → Q a d')
        → Triple db (Inside db P) (exec env the_tx s) (λ a. Inside db (Q a))
    unfolding exec
    Triple-exec_write s P Q h = record {
      run = λ w p.
          subst
            (λ x.
              Ends db (λ a. Inside db (Q a))
                (if env.fails w.calls
                  then (err driver, count_call w)
                  else in_tx s (count_call w) x))
            (sym p.opened)
            (Ends-write db Q w p.trans (env.fails w.calls) (s p.trans.started p.trans.work) p.same
              (λ a d. h p.trans.started a p.trans.work d p.holds));
    }

  module _ {db : Db F} where
    Ends-begin :
        (w : World F) (b : Bool)
        → w.db ≡ db
        → Ends db
            (λ _. Inside db (λ d. d ≡ db))
            (if b then (err driver, count_call w) else (
              ok tt,
              record w {
                tx = some (record { work = w.db; started = env.db_now w.calls });
                calls = (count_call w).calls;
              },
            ))
    Ends-begin w true e = e
    Ends-begin w false e = record {
      same = e;
      trans = record { work = w.db; started = env.db_now w.calls };
      opened = refl;
      holds = e;
    }

    pub Triple-begin_tx : Triple db (Outside db) (begin_tx env) (λ _. Inside db (λ d. d ≡ db))
    unfolding begin_tx
    Triple-begin_tx = record { run = λ w p. Ends-begin w (env.fails w.calls) p.same }

    Ends-commit :
        (P : Db F → Type 0) (w : World F) (t : Tx F) (b : Bool)
        → w.db ≡ db
        → P t.work
        → Ends {A = Unit {0}} db
            (λ _ w. P w.db)
            (if b
              then (err driver, record w { tx = none; calls = (count_call w).calls })
              else commit_work env (count_call w) (some t))
    Ends-commit P w t true e p = e
    Ends-commit P w t false e p = p

    pub Triple-commit : (P : Db F → Type 0) → Triple db (Inside db P) (commit env) (λ _ w. P w.db)
    unfolding commit
    Triple-commit P = record {
      run = λ w p. rw p.opened (Ends-commit P w p.trans (env.fails w.calls) p.same p.holds);
    }
