-- ===== src/Promos/Service.antt =====
-- internal/promos/service_impl.go. `Create` also sets fields of the promo code that its caller holds,
-- which is the result here.
use soa_hw.Prelude.{ℕ, not, String}
use soa_hw.Prelude.Int.{pos}
use soa_hw.Domain.Promo.{PromoCode, is_valid}
use soa_hw.Store.{Env}
use soa_hw.Store.Action.{
  promo_code_is_invalid_or_expired, Action, pure, raise_if, time_now, uuid_new, ◌>>=◌, ◌>>◌,
}
use soa_hw.Promos.Repository as Repository

module _ {F : Type 0} (env : Env F) where
  unfoldable pub create : PromoCode F → Action F (PromoCode F)
  create promo = do
    id ← uuid_new env
    let stamped : PromoCode F = record promo { id = id; current_uses = pos 0 }
    Repository.create env stamped
    pure stamped

  unfoldable pub get_by_code : String → Action F (PromoCode F)
  get_by_code code = do
    promo ← Repository.get_by_code env code
    now ← time_now env
    raise_if (not (is_valid promo now)) promo_code_is_invalid_or_expired
    pure promo

  unfoldable pub get_by_id : ℕ → Action F (PromoCode F)
  get_by_id id = Repository.get_by_id env id

  unfoldable pub update : PromoCode F → Action F (Unit {0})
  update promo = Repository.update env promo

  unfoldable pub delete : ℕ → Action F (Unit {0})
  delete id = Repository.delete env id
