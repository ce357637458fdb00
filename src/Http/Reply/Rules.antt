-- ===== src/Http/Reply/Rules.antt =====
-- The rules of the logic for handlers.
use soa_hw.Prelude.{
  ◌≡◌, refl, subst, ◌⊎◌, inl, inr, not-true, Bool-cases, str_eq, eq_iff, Bool, true, false, Option,
  none, some, String,
}
use soa_hw.Store.{Db, World}
use soa_hw.Store.Action.{Error, Result, ok, err, Action, pure}
use soa_hw.Store.Outcome.{Ends, Triple, Outside, Triple-pure, Triple-weaken}
use soa_hw.Http.Errors.{AppError, new_access_denied}
use soa_hw.Http.Reply.{Reply, refused, attempt, unless, unless_err, deny_if, is_no_trader}

pub str_eq-true : (a b : String) → str_eq a b ≡ true → a ≡ b
str_eq-true a b = (eq_iff a b).0

pub trader_cases :
    (role : String) → is_no_trader role ≡ false → (role ≡ "SELLER") ⊎ (role ≡ "ADMIN")
trader_cases role h = elim (Bool-cases (str_eq role "SELLER")) [
  | inl e ↦ inl (str_eq-true role "SELLER" e)
  | inr e ↦ inr (str_eq-true role "ADMIN" (not-true _ (rw e at h)))
]

module _ {F : Type 0} (db : Db F) where
  -- The result of a call as its caller sees it.
  abbrev pub Tried : {A : Type 0} → (A → World F → Type 0) → Result A → World F → Type 0
  Tried Q (ok a) w = Q a w
  Tried Q (err e) w = w.db ≡ db

  Ends-Tried :
      {A : Type 0} (Q : A → World F → Type 0) (r : Result A × World F)
      → Ends db Q r
      → Tried Q r.0 r.1
  Ends-Tried Q (ok a, w) h = h
  Ends-Tried Q (err e, w) h = h

  pub Triple-attempt :
      {A : Type 0} {P : World F → Type 0} {m : Action F A} (Q : A → World F → Type 0)
      → Triple db P m Q
      → Triple db P (attempt m) (Tried Q)
  unfolding attempt
  Triple-attempt {m = m} Q t = record { run = λ w p. Ends-Tried Q (m w) (t.run w p) }

  -- A theorem about all states as a triple.
  pub Triple-Ends :
      {A : Type 0} {m : Action F A} (Q : Db F → A → World F → Type 0)
      → ((w : World F) → Ends w.db (Q w.db) (m w))
      → Triple db (Outside db) m (Q db)
  Triple-Ends {m = m} Q h = record { run = λ w p. subst (λ d. Ends d (Q d) (m w)) p.same (h w) }

  module _ {B : Type 0} {R : Reply B → World F → Type 0} where
    pub Triple-refused :
        (e : AppError String)
        → ((w : World F) → w.db ≡ db → R (refused e) w)
        → Triple db (Outside db) (pure (refused e)) R
    Triple-refused e refuse = Triple-weaken (Triple-pure _) (λ w p. refuse w p.same) (λ a w p. p)

    pub Triple-unless :
        {A : Type 0} (e : AppError String) (o : Option A) {f : A → Action F (Reply B)}
        → ((w : World F) → w.db ≡ db → R (refused e) w)
        → ((a : A) → o ≡ some a → Triple db (Outside db) (f a) R)
        → Triple db (Outside db) (unless e o f) R
    Triple-unless e none refuse k = Triple-refused e refuse
    Triple-unless e (some a) refuse k = k a refl

    -- After a call that, if it succeeds, leaves the tables as they are.
    pub Triple-unless_err :
        {A : Type 0} (e : Error → AppError String) (r : Result A) {f : A → Action F (Reply B)}
        (S : A → Type 0)
        → ((x : Error) (w : World F) → w.db ≡ db → R (refused (e x)) w)
        → ((a : A) → S a → Triple db (Outside db) (f a) R)
        → Triple db (Tried (λ a w. Outside db w × S a) r) (unless_err e r f) R
    Triple-unless_err e (ok a) S refuse k = record { run = λ w p. (k a p.1).run w p.0 }
    Triple-unless_err e (err x) S refuse k =
        Triple-weaken (Triple-pure _) (λ w same. refuse x w same) (λ a w p. p)

    pub Triple-deny_if :
        (forbidden : Bool) {m : Action F (Reply B)}
        → ((w : World F) → w.db ≡ db → R (refused new_access_denied) w)
        → (forbidden ≡ false → Triple db (Outside db) m R)
        → Triple db (Outside db) (deny_if forbidden m) R
    Triple-deny_if true refuse k = Triple-refused _ refuse
    Triple-deny_if false refuse k = k refl

    -- After the last call of a handler, which may have changed the tables.
    pub Triple-unless_err_last :
        {A : Type 0} (e : Error → AppError String) (r : Result A) (g : A → Reply B)
        (Q : A → World F → Type 0)
        → ((x : Error) (w : World F) → w.db ≡ db → R (refused (e x)) w)
        → ((a : A) (w : World F) → Q a w → R (g a) w)
        → Triple db (Tried Q r) (unless_err e r (λ a. pure (g a))) R
    Triple-unless_err_last e (ok a) g Q refuse k =
        Triple-weaken (Triple-pure _) (λ w q. k a w q) (λ b w q. q)
    Triple-unless_err_last e (err x) g Q refuse k =
        Triple-weaken (Triple-pure _) (λ w same. refuse x w same) (λ b w q. q)
