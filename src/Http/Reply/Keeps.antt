-- ===== src/Http/Reply/Keeps.antt =====
-- What a handler keeps of the committed tables.
use soa_hw.Prelude.{Option, none, some, String}
use soa_hw.Store.{Db}
use soa_hw.Store.Action.{Error, Result, ok, err, Action, pure, ◌>>=◌}
use soa_hw.Store.Keeps.{Keeps, Keeps-pure, Keeps-bind}
use soa_hw.Http.Errors.{AppError}
use soa_hw.Http.Reply.{Reply, refused, attempt, unless, unless_err}

module _ {F : Type 0} (R : Db F → Type 0) where
  module _ {A : Type 0} where
    pub Keeps-attempt : {m : Action F A} → Keeps R m → Keeps R (attempt m)
    unfolding attempt
    Keeps-attempt k = record { run = λ w h. k.run w h }

  module _ {A B : Type 0} where
    pub Keeps-unless :
        (e : AppError String) (o : Option A) {f : A → Action F (Reply B)}
        → ((a : A) → Keeps R (f a))
        → Keeps R (unless e o f)
    Keeps-unless e none k = Keeps-pure R (refused e)
    Keeps-unless e (some a) k = k a

    pub Keeps-unless_err :
        (e : Error → AppError String) (r : Result A) {f : A → Action F (Reply B)}
        → ((a : A) → Keeps R (f a))
        → Keeps R (unless_err e r f)
    Keeps-unless_err e (ok a) k = k a
    Keeps-unless_err e (err x) k = Keeps-pure R (refused (e x))

  module _ {A B : Type 0} where
    -- A handler that ends with a call of its service.
    pub Keeps-reply :
        {m : Action F A} (g : Result A → Reply B)
        → Keeps R m
        → Keeps R (attempt m >>= λ r. pure (g r))
    Keeps-reply g k = Keeps-bind R (Keeps-attempt k) λ r. Keeps-pure R (g r)

    pub Keeps-call :
        {m : Action F A} (e : Error → AppError String) {f : A → Action F (Reply B)}
        → Keeps R m
        → ((a : A) → Keeps R (f a))
        → Keeps R (attempt m >>= λ r. unless_err e r f)
    Keeps-call e k kf = Keeps-bind R (Keeps-attempt k) λ r. Keeps-unless_err e r kf
