-- ===== src/Promos/Contract.antt =====
-- What the methods of the promo codes repository promise to their callers.
use soa_hw.Prelude.{ℕ, ◌≡◌, refl, ◌∙◌, some, find, String, str_eq}
use soa_hw.Store.{Env, Db, World}
use soa_hw.Store.Action.{ok, the_tx}
use soa_hw.Store.Outcome.{
  Triple, Inside, IsSteady, Returns, Triple-bind_fact, Triple-on_error, Triple-or_raise_last,
  Triple-weaken,
}
use soa_hw.Store.Statements.{Triple-exec_select, Triple-exec_write}
use soa_hw.Promos.Repository.{
  select_by_code, get_by_code, increment, decrement, increment_uses, decrement_uses,
}

module _ {F : Type 0} (env : Env F) {db : Db F} where
  -- `GetByCode` reads the committed row.
  pub get_by_code-Triple :
      {P : World F → Type 0} (code : String)
      → IsSteady db P
      → Triple db P
          (get_by_code env code)
          (Returns P (λ p. find (λ q. str_eq q.code code) db.promo_codes ≡ some p))
  unfolding get_by_code select_by_code
  get_by_code-Triple code steady =
      Triple-bind_fact
        (Triple-on_error _ (Triple-exec_select env (select_by_code code) _ steady (λ n. refl)))
        λ found e.
          Triple-weaken (Triple-or_raise_last found _ steady) (λ w p. p) (λ a w r. (r.0, e ∙ r.1))

  pub increment_uses-Triple :
      (id : ℕ) (P Q : Db F → Type 0)
      → ((n : ℕ) (d d' : Db F) → P d → increment env id n d ≡ ok (tt, d') → Q d')
      → Triple db (Inside db P) (increment_uses env the_tx id) (λ _. Inside db Q)
  unfolding increment_uses
  increment_uses-Triple id P Q h =
      Triple-on_error _
        (Triple-exec_write env (increment env id) P (λ _. Q) (λ n u d d' p e. h n d d' p e))

  pub decrement_uses-Triple :
      (id : ℕ) (P Q : Db F → Type 0)
      → ((n : ℕ) (d d' : Db F) → P d → decrement env id n d ≡ ok (tt, d') → Q d')
      → Triple db (Inside db P) (decrement_uses env the_tx id) (λ _. Inside db Q)
  unfolding decrement_uses
  decrement_uses-Triple id P Q h =
      Triple-on_error _
        (Triple-exec_write env (decrement env id) P (λ _. Q) (λ n u d d' p e. h n d d' p e))
