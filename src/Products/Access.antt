-- ===== src/Products/Access.antt =====
-- Who may change the catalogue through the handlers of internal/products/handler.go.
pub mod Authorized
use soa_hw.Prelude.{
  find_sound, ==_iff, ℕ, ◌≡◌, subst, sym, ◌⊎◌, inl, inr, true, false, not-true, Bool-cases, str_eq,
  none, some, find,
}
use soa_hw.Domain.{Product}
use soa_hw.Store.Action.{Action}
use soa_hw.Http.Reply.{Reply, refused, created, is_no_trader}
use soa_hw.Http.Reply.Rules.{str_eq-true, trader_cases}
use soa_hw.Products.Repository.{has_id}
use soa_hw.Products.Contract as Contract
use soa_hw.Products.Service as Service
use soa_hw.Products.Handler.{is_foreign, may_not_change}
use soa_hw.Products.Catalogue.{Catalogue, Puts, SameOrigin, IsStored}
use soa_hw.Products.Access.Authorized.{AsksDelete}
