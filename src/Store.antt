-- ===== src/Store.antt =====
-- The database as the queries and migrations/000001_init_schema.up.sql describe it, and the state
-- of a request: the committed tables, the open transaction, and the outside world.
pub mod Schema
pub mod Action
pub mod Outcome
pub mod Statements
pub mod Keeps
use soa_hw.Prelude.{ℕ, Bool, Option, List}
use soa_hw.Double.{Double}
use soa_hw.Domain.{User, Product, Order, OrderItem, UserOperation}
use soa_hw.Domain.Promo.{PromoCode}

-- What the program takes from outside, each numbered by the calls made before it: clocks, fresh
-- identifiers, and whether a database call fails for a reason that is not its statement's.
pub record Env (F : Type 0) : Type 0 where
  pub double : Double F
  pub numeric : F → Option F  -- what a DECIMAL(12,2) column holds after a write, if it takes it
  pub positive : F → Bool  -- PostgreSQL's `> 0` on such a column
  pub nonneg : F → Bool  -- and `>= 0`
  pub timestamp : ℕ → ℕ  -- what a TIMESTAMP column holds after a write
  pub now : ℕ → ℕ  -- time.Now()
  pub db_now : ℕ → ℕ  -- CURRENT_TIMESTAMP of a statement or transaction begun then
  pub new_uuid : ℕ → ℕ  -- uuid.New()
  pub fails : ℕ → Bool

pub record Db (F : Type 0) : Type 0 where
  pub users : List User
  pub products : List (Product F)
  pub promo_codes : List (PromoCode F)
  pub orders : List (Order F)
  pub order_items : List (OrderItem F)
  pub user_operations : List UserOperation

-- An open transaction: its own view of the tables, and its CURRENT_TIMESTAMP.
pub record Tx (F : Type 0) : Type 0 where
  pub work : Db F
  pub started : ℕ

pub record World (F : Type 0) : Type 0 where
  pub db : Db F
  pub tx : Option (Tx F)
  pub calls : ℕ
