-- ===== src/Store/Outcome.antt =====
-- A logic of actions. `Triple db P m Q`: from a state with P the action ends in a state with Q, or
-- it fails and the committed tables are still `db`. There is one rule for each way to build an
-- action; Store/Statements has those for statements.
use soa_hw.Prelude.{ℕ, subst, ◌≡◌, refl, Bool, true, false, Option, some, none}
use soa_hw.Store.{Env, Db, Tx, World}
use soa_hw.Store.Action.{
  Error, Result, ok, err, Action, pure, raise, ◌>>=◌, ◌>>◌, proceed, reword, raise_if, on_error,
  or_raise, time_now, uuid_new, defer_rollback, count_call,
}

module _ {F : Type 0} where
  abbrev pub Ends : {A : Type 0} → Db F → (A → World F → Type 0) → Result A × World F → Type 0
  Ends db Q (ok a, w) = Q a w
  Ends db Q (err e, w) = w.db ≡ db

  pub record Triple {A : Type 0} (db : Db F) (P : World F → Type 0) (m : Action F A)
      (Q : A → World F → Type 0) : Type 0 where
    pub run : (w : World F) → P w → Ends db Q (m w)

  -- The committed tables are `db`.
  pub record Outside (db : Db F) (w : World F) : Type 0 where
    pub same : w.db ≡ db

  -- A transaction is open, and `P` holds of the tables that it sees.
  pub record Inside (db : Db F) (P : Db F → Type 0) (w : World F) : Type 0 where
    pub same : w.db ≡ db
    pub trans : Tx F
    pub opened : w.tx ≡ some trans
    pub holds : P trans.work

  pub Inside-map :
      {db : Db F} {P Q : Db F → Type 0} {w : World F}
      → ((d : Db F) → P d → Q d)
      → Inside db P w
      → Inside db Q w
  Inside-map f p = record {
    same = p.same;
    trans = p.trans;
    opened = p.opened;
    holds = f p.trans.work p.holds;
  }

  -- What calls that write nothing leave alone.
  pub record IsSteady (db : Db F) (P : World F → Type 0) : Type 0 where
    pub same : (w : World F) → P w → w.db ≡ db
    pub counted : (w : World F) → P w → P (count_call w)

  pub Outside-IsSteady : (db : Db F) → IsSteady db (Outside db)
  Outside-IsSteady db = record { same = λ w p. p.same; counted = λ w p. record { same = p.same } }

  pub Inside-IsSteady : (db : Db F) (P : Db F → Type 0) → IsSteady db (Inside db P)
  Inside-IsSteady db P = record {
    same = λ w p. p.same;
    counted = λ w p. record { same = p.same; trans = p.trans; opened = p.opened; holds = p.holds };
  }

  -- The state is as before, and `R` holds of the result.
  abbrev pub Returns : {A : Type 0} → (World F → Type 0) → (A → Type 0) → A → World F → Type 0
  Returns P R a w = P w × R a

  module _ {A : Type 0} (db : Db F) where
    pub Ends-weaken :
        (Q Q' : A → World F → Type 0) (r : Result A × World F)
        → ((a : A) (w : World F) → Q a w → Q' a w)
        → Ends db Q r
        → Ends db Q' r
    Ends-weaken Q Q' (ok a, w) f h = f a w h
    Ends-weaken Q Q' (err e, w) f h = h

    -- Two theorems about one call.
    pub Ends-both :
        (Q Q' : A → World F → Type 0) (r : Result A × World F)
        → Ends db Q r
        → Ends db Q' r
        → Ends db (λ a w. Q a w × Q' a w) r
    Ends-both Q Q' (ok a, w) h h' = (h, h')
    Ends-both Q Q' (err e, w) h h' = h

    Ends-reword :
        (Q : A → World F → Type 0) (f : Error → Error) (r : Result A × World F)
        → Ends db Q r
        → Ends db Q (reword f r.0, r.1)
    Ends-reword Q f (ok a, w) h = h
    Ends-reword Q f (err e, w) h = h

    Ends-rollback :
        (Q : A → Db F → Type 0) (r : Result A × World F)
        → Ends db (λ a w. Q a w.db) r
        → Ends db (λ a w. Q a w.db) (r.0, record (r.1) { tx = none })
    Ends-rollback Q (ok a, w) h = h
    Ends-rollback Q (err e, w) h = h

  module _ {A : Type 0} {db : Db F} where
    pub Triple-pure : {Q : A → World F → Type 0} (a : A) → Triple db (Q a) (pure a) Q
    unfolding pure
    Triple-pure a = record { run = λ w p. p }

    -- An action that depends on the number of the call.
    pub Triple-numbered :
        {P : World F → Type 0} {Q : A → World F → Type 0} {m : ℕ → Action F A}
        → ((k : ℕ) → Triple db P (m k) Q)
        → Triple db P (λ w. m w.calls w) Q
    Triple-numbered t = record { run = λ w p. (t w.calls).run w p }

    pub Triple-raise :
        {P : World F → Type 0} {Q : A → World F → Type 0} (e : Error)
        → IsSteady db P
        → Triple db P (raise e) Q
    unfolding raise
    Triple-raise e steady = record { run = λ w p. steady.same w p }

    pub Triple-weaken :
        {P P' : World F → Type 0} {m : Action F A} {Q Q' : A → World F → Type 0}
        → Triple db P m Q
        → ((w : World F) → P' w → P w)
        → ((a : A) (w : World F) → Q a w → Q' a w)
        → Triple db P' m Q'
    Triple-weaken {m = m} {Q = Q} {Q' = Q'} t before after = record {
      run = λ w p. Ends-weaken db Q Q' (m w) after (t.run w (before w p));
    }

    pub Triple-on_error :
        {P : World F → Type 0} {m : Action F A} {Q : A → World F → Type 0} (f : Error → Error)
        → Triple db P m Q
        → Triple db P (on_error f m) Q
    unfolding on_error
    Triple-on_error {m = m} {Q = Q} f t = record {
      run = λ w p. Ends-reword db Q f (m w) (t.run w p);
    }

    pub Triple-defer_rollback :
        {P : World F → Type 0} {m : Action F A} (Q : A → Db F → Type 0)
        → Triple db P m (λ a w. Q a w.db)
        → Triple db P (defer_rollback m) (λ a w. Q a w.db)
    unfolding defer_rollback
    Triple-defer_rollback {m = m} Q t = record { run = λ w p. Ends-rollback db Q (m w) (t.run w p) }

  module _ {A B : Type 0} {db : Db F} where
    Ends-proceed :
        {Q : A → World F → Type 0} {R : B → World F → Type 0} (r : Result A × World F)
        (f : A → Action F B)
        → Ends db Q r
        → ((a : A) → Triple db (Q a) (f a) R)
        → Ends db R (proceed r f)
    Ends-proceed (ok a, w) f h k = (k a).run w h
    Ends-proceed (err e, w) f h k = h

    pub Triple-bind :
        {P : World F → Type 0} {m : Action F A} {Q : A → World F → Type 0} {f : A → Action F B}
        {R : B → World F → Type 0}
        → Triple db P m Q
        → ((a : A) → Triple db (Q a) (f a) R)
        → Triple db P (m >>= f) R
    unfolding ◌>>=◌
    Triple-bind {m = m} {Q = Q} {f = f} {R = R} t k = record {
      run = λ w p. Ends-proceed {Q = Q} {R = R} (m w) f (t.run w p) k;
    }

    pub Triple-or_raise :
        {P : World F → Type 0} {f : A → Action F B} {R : B → World F → Type 0} (o : Option A)
        (e : Error)
        → IsSteady db P
        → ((a : A) → o ≡ some a → Triple db P (f a) R)
        → Triple db P (or_raise o e >>= f) R
    unfolding or_raise ◌>>=◌
    Triple-or_raise none e steady h = record { run = λ w p. steady.same w p }
    Triple-or_raise (some a) e steady h = record { run = λ w p. (h a refl).run w p }

    -- The rest may use what is known of the result.
    pub Triple-bind_fact :
        {P : World F → Type 0} {m : Action F A} {S : A → Type 0} {f : A → Action F B}
        {R : B → World F → Type 0}
        → Triple db P m (Returns P S)
        → ((a : A) → S a → Triple db P (f a) R)
        → Triple db P (m >>= f) R
    Triple-bind_fact t k = Triple-bind t (λ a. record { run = λ w p. (k a p.1).run w p.0 })

  module _ {A : Type 0} {db : Db F} {P : World F → Type 0} where
    -- At the end of a block.
    pub Triple-or_raise_last :
        (o : Option A) (e : Error)
        → IsSteady db P
        → Triple db P (or_raise o e) (Returns P (λ a. o ≡ some a))
    unfolding or_raise
    Triple-or_raise_last none e steady = record { run = λ w p. steady.same w p }
    Triple-or_raise_last (some a) e steady = record { run = λ w p. (p, refl) }

    pub Triple-return : {R : A → Type 0} (a : A) → R a → Triple db P (pure a) (Returns P R)
    unfolding pure
    Triple-return a r = record { run = λ w p. (p, r) }

  module _ {db : Db F} {P : World F → Type 0} where
    pub Triple-raise_if_last :
        (b : Bool) (e : Error) → IsSteady db P → Triple db P (raise_if b e) (λ _. P)
    unfolding raise_if
    Triple-raise_if_last true e steady = record { run = λ w p. steady.same w p }
    Triple-raise_if_last false e steady = record { run = λ w p. p }

  module _ {B : Type 0} {db : Db F} {P : World F → Type 0} {R : B → World F → Type 0} where
    pub Triple-raise_if :
        {k : Action F B} (b : Bool) (e : Error)
        → IsSteady db P
        → (b ≡ false → Triple db P k R)
        → Triple db P (raise_if b e >> k) R
    unfolding raise_if ◌>>=◌
    Triple-raise_if true e steady h = record { run = λ w p. steady.same w p }
    Triple-raise_if false e steady h = record { run = λ w p. (h refl).run w p }

    pub Triple-time_now :
        {f : _ → Action F B} (env : Env F)
        → IsSteady db P
        → ((n : ℕ) → Triple db P (f n) R)
        → Triple db P (time_now env >>= f) R
    unfolding time_now ◌>>=◌
    Triple-time_now env steady h = record {
      run = λ w p. (h _).run (count_call w) (steady.counted w p);
    }

    -- Where it matters that the time is one that the clock gave.
    pub Triple-clock :
        {f : _ → Action F B} (env : Env F)
        → IsSteady db P
        → ((n k : ℕ) → n ≡ env.now k → Triple db P (f n) R)
        → Triple db P (time_now env >>= f) R
    unfolding time_now ◌>>=◌
    Triple-clock env steady h = record {
      run = λ w p. (h _ w.calls refl).run (count_call w) (steady.counted w p);
    }

    pub Triple-uuid_new :
        {f : _ → Action F B} (env : Env F)
        → IsSteady db P
        → ((n : _) → Triple db P (f n) R)
        → Triple db P (uuid_new env >>= f) R
    unfolding uuid_new ◌>>=◌
    Triple-uuid_new env steady h = record {
      run = λ w p. (h _).run (count_call w) (steady.counted w p);
    }

-- What a triple says of a call that succeeded.
pub after_ok :
    {F A : Type 0} (db : Db F) (Q : A → World F → Type 0) (q : Result A × World F) (a : A)
    (w : World F)
    → q ≡ (ok a, w)
    → Ends db Q q
    → Q a w
after_ok db Q q a w e h = subst (Ends db Q) e h
