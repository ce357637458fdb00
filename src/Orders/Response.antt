-- ===== src/Orders/Response.antt =====
-- mapOrderToResponse of internal/orders/handler.go, to the generated types api.OrderResponse and
-- api.OrderItemResponse.
use soa_hw.Prelude.{ℕ, String, Option, List, map}
use soa_hw.Prelude.Int.{ℤ}
use soa_hw.Domain.{OrderItem, OrderWithItems}
use soa_hw.Store.{Env}
use soa_hw.Http.Reply.{Api, optional_text}
use soa_hw.Orders.Service.{status_text}

pub record OrderItemResponse (F : Type 0) : Type 0 where
  pub id : String
  pub product_id : String
  pub quantity : ℤ
  pub price_at_order : F

pub record OrderResponse (F : Type 0) : Type 0 where
  pub id : String
  pub user_id : String
  pub status : String
  pub items : List (OrderItemResponse F)
  pub promo_code_id : Option String
  pub total_amount : F
  pub discount_amount : F
  pub created_at : ℕ
  pub updated_at : ℕ

module _ {F : Type 0} (env : Env F) (api : Api) where
  abbrev pub item_response : OrderItem F → OrderItemResponse F
  item_response item = record {
    id = api.uuid_text item.id;
    product_id = api.uuid_text item.product_id;
    quantity = item.quantity;
    price_at_order = env.double.single item.price_at_order;
  }

  abbrev pub map_order_to_response : OrderWithItems F → OrderResponse F
  map_order_to_response o = record {
    id = api.uuid_text o.order.id;
    user_id = api.uuid_text o.order.user_id;
    status = status_text o.order.status;
    items = map item_response o.items;
    promo_code_id = optional_text api o.order.promo_code_id;
    total_amount = env.double.single o.order.total_amount;
    discount_amount = env.double.single o.order.discount_amount;
    created_at = o.order.created_at;
    updated_at = o.order.updated_at;
  }
