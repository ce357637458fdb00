-- ===== src/Store/Keeps.antt =====
-- What an action keeps, however it ends: a lighter logic than that of triples, for a property of the
-- committed tables that each call keeps on its own.
use soa_hw.Prelude.{ℕ, ◌≡◌, refl, subst, sym, Bool, true, false, Option, none, some, if◌then◌else◌}
use soa_hw.Store.{Env, Db, World}
use soa_hw.Store.Action.{
  Error, Result, ok, err, driver, Action, Sql, nil_tx, exec, pure, raise, ◌>>=◌, proceed, on_error,
  or_raise, time_now, uuid_new, count_call, after_db,
}
use soa_hw.Store.Outcome.{Ends, Triple, Outside}

module _ {F : Type 0} (R : Db F → Type 0) where
  pub record Keeps {A : Type 0} (m : Action F A) : Type 0 where
    pub run : (w : World F) → R w.db → R (m w).1.db

  module _ {A : Type 0} where
    pub Keeps-pure : (a : A) → Keeps (pure a)
    unfolding pure
    Keeps-pure a = record { run = λ w h. h }

    pub Keeps-on_error : {m : Action F A} (f : Error → Error) → Keeps m → Keeps (on_error f m)
    unfolding on_error
    Keeps-on_error f k = record { run = λ w h. k.run w h }

    pub Keeps-or_raise : (o : Option A) (e : Error) → Keeps (or_raise o e)
    unfolding or_raise raise
    Keeps-or_raise none e = record { run = λ w h. h }
    Keeps-or_raise (some a) e = Keeps-pure a

    -- A statement on the pool.
    pub Keeps-exec :
        (env : Env F) (s : Sql F A)
        → ((n : ℕ) (d d' : Db F) (a : A) → R d → s n d ≡ ok (a, d') → R d')
        → Keeps (exec env nil_tx s)
    unfolding exec
    Keeps-exec env s keep = record {
      run = λ w h.
          go w (env.fails w.calls) (s (env.db_now w.calls) w.db)
            (λ d a e. keep (env.db_now w.calls) w.db d a h e) h;
    }
      where
        go :
            (w : World F) (b : Bool) (r : Result (A × Db F))
            → ((d : Db F) (a : A) → r ≡ ok (a, d) → R d)
            → R w.db
            → R (if b then (err driver, count_call w) else after_db (count_call w) r).1.db
        go w true r f h = h
        go w false (err e) f h = h
        go w false (ok (a, d)) f h = f d a refl

    -- An action by what it ends in.
    pub Keeps-Ends :
        (m : Action F A) (Q : World F → A → World F → Type 0)
        → ((w : World F) → Ends w.db (Q w) (m w))
        → ((w : World F) (a : A) (w' : World F) → R w.db → Q w a w' → R w'.db)
        → Keeps m
    Keeps-Ends m Q ends keep = record { run = λ w h. go w (m w) (ends w) h }
      where
        go : (w : World F) (r : Result A × World F) → Ends w.db (Q w) r → R w.db → R r.1.db
        go w (ok a, w') q h = keep w a w' h q
        go w (err e, w') q h = subst R (sym q) h

    pub Keeps-reads :
        {m : Action F A} → ((db : Db F) → Triple db (Outside db) m (λ _. Outside db)) → Keeps m
    Keeps-reads {m = m} t =
        Keeps-Ends m (λ w a w'. Outside w.db w') (λ w. (t w.db).run w (record { same = refl }))
          (λ w a w' h q. subst R (sym q.same) h)

  module _ {A B : Type 0} where
    pub Keeps-bind :
        {m : Action F A} {f : A → Action F B} → Keeps m → ((a : A) → Keeps (f a)) → Keeps (m >>= f)
    unfolding ◌>>=◌
    Keeps-bind {m = m} {f = f} k kf = record { run = λ w h. go (m w) (k.run w h) }
      where
        go : (r : Result A × World F) → R r.1.db → R (proceed r f).1.db
        go (ok a, w) h = (kf a).run w h
        go (err e, w) h = h

  module _ {B : Type 0} where
    pub Keeps-if : (b : Bool) {m n : Action F B} → Keeps m → Keeps n → Keeps (if b then m else n)
    Keeps-if true k l = k
    Keeps-if false k l = l

    pub Keeps-time_now :
        {f : ℕ → Action F B} (env : Env F) → ((n : ℕ) → Keeps (f n)) → Keeps (time_now env >>= f)
    unfolding time_now ◌>>=◌
    Keeps-time_now env k = record { run = λ w h. (k _).run (count_call w) h }

    pub Keeps-uuid_new :
        {f : ℕ → Action F B} (env : Env F) → ((n : ℕ) → Keeps (f n)) → Keeps (uuid_new env >>= f)
    unfolding uuid_new ◌>>=◌
    Keeps-uuid_new env k = record { run = λ w h. (k _).run (count_call w) h }
