-- ===== src/Platform/Monad.antt =====
-- The state of the service as its use cases see it, and the actions on it: what an action wrote
-- stays written when it fails.
use oficina_tech_ms_order_se.Shared.{Bool, List, String, ℕ}
use oficina_tech_ms_order_se.Domain.Errors.{Error, Result, err, fail_if, ok}
use oficina_tech_ms_order_se.Domain.History.{History}
use oficina_tech_ms_order_se.Domain.Item.{ServiceOrderItem}
use oficina_tech_ms_order_se.Domain.Order.{ServiceOrder}
use oficina_tech_ms_order_se.Domain.Stock.{StockOperation}

pub record InventoryItem : Type 0 where
  pub product_id : String
  pub item_quantity : ℕ

-- `events.OrderInventoryOperationRequested`.
pub record InventoryRequest : Type 0 where
  pub saga_id : String
  pub order_id : String
  pub operation : StockOperation
  pub items : List InventoryItem

pub record Email : Type 0 where
  pub to : String
  pub name : String
  pub order_id : String
  pub old_status : String
  pub new_status : String

pub record CustomerDto : Type 0 where
  pub id : String
  pub name : String
  pub email : String
  pub phone : String

-- An item sent to Mercado Pago; the price is in cents, where the source divides by 100 into a
-- floating-point number.
pub record PaymentItem : Type 0 where
  pub title : String
  pub quantity : ℕ
  pub cents : ℕ

pub record PayerInfo : Type 0 where
  pub email : String
  pub name : String

-- What the Mercado Pago client was asked for.
pub data PaymentCall : Type 0 where
  create_order : List PaymentItem → PayerInfo → String → PaymentCall
  cancel_mp_order refund_mp_order get_payment : String → PaymentCall

-- `tick` counts the calls that have left the service. The rows of items that are deleted softly
-- stand apart, in `deleted_items`: no later read of the order returns them.
pub record World : Type 0 where
  pub tick : ℕ
  pub orders : List ServiceOrder
  pub deleted_items : List ServiceOrderItem
  pub histories : List History
  pub requests : List InventoryRequest
  pub emails : List Email
  pub payment_calls : List PaymentCall

abbrev pub Action : Type 0 → Type 0
Action A = World → Result A × World

-- A method of the domain inside an action.
abbrev pub lift : {A : Type 0} → Result A → Action A
lift r w = (r, w)

abbrev pub pure : {A : Type 0} → A → Action A
pure value = lift (ok value)

abbrev pub raise : {A : Type 0} → Error → Action A
raise failure = lift (err failure)

infixl 5 ◌>>=◌
-- Shut, so that a proof reads an action step by step.
unfoldable pub ◌>>=◌ : {A B : Type 0} → Action A → (A → Action B) → Action B
◌>>=◌ m f w = let (r, v) = m w in elim r [ ok a ↦ f a v | err e ↦ (err e, v) ]

infixl 5 ◌>>◌
-- The first action's result is dropped.
abbrev pub ◌>>◌ : {A B : Type 0} → Action A → Action B → Action B
first >> second = first >>= λ _. second

-- `if bad { return err }`.
abbrev pub raise_if : Bool → Error → Action (Unit {0})
raise_if bad e w = (fail_if bad e, w)
