-- ===== src/Platform/Ports.antt =====
-- The calls that leave the service. `Env` is the outside: for each call, counted by `tick`, it says
-- whether and how the call fails, and what it answers.
use oficina_tech_ms_order_se.Shared.{Option, String, [], none, some, ℕ, ◌++◌, ◌+◌, ◌∷◌, Bool}
use oficina_tech_ms_order_se.Domain.Errors.{
  Error, Result, err, of_error, ok, service_order_not_found,
}
use oficina_tech_ms_order_se.Domain.History.{History}
use oficina_tech_ms_order_se.Domain.Item.{Clock}
use oficina_tech_ms_order_se.Domain.Order.{ServiceOrder}
use oficina_tech_ms_order_se.Platform.Monad.{
  Action, CustomerDto, Email, InventoryRequest, PaymentCall, World, get_payment,
}
use oficina_tech_ms_order_se.Platform.Table.{find_row, save_row}

pub record MpOrder : Type 0 where
  pub id : String
  pub redirect_url : String

pub record MpPayment : Type 0 where
  pub id : String
  pub status : String
  pub status_detail : String
  pub external_reference : String

-- The answers of the catalogue of the other services, for vehicles, products and services.
pub record VehicleDto : Type 0 where
  pub id : String
  pub customer_id : String

pub record CatalogDto : Type 0 where
  pub name : String
  pub price : ℕ

pub record Env : Type 0 where
  -- The saga was given a customer adapter and an e-mail service.
  pub notifies : Bool
  -- The clock, read several times between two calls.
  pub now : ℕ → Clock
  -- `uuid.NewV7`.
  pub new_uuid : ℕ → String
  -- The ids that one `SaveWithItems` gives to items, by their place.
  pub item_uuid : ℕ → ℕ → String
  pub find_error : ℕ → String → Option Error
  -- The failure of a query for several orders.
  pub query_error : ℕ → Option Error
  pub save_error : ℕ → ServiceOrder → Option Error
  pub history_error : ℕ → History → Option Error
  pub publish_error : ℕ → InventoryRequest → Option Error
  pub customer : ℕ → String → Result CustomerDto
  pub vehicle : ℕ → String → Result VehicleDto
  pub catalog_product : ℕ → String → Result CatalogDto
  pub catalog_service : ℕ → String → Result CatalogDto
  pub email_error : ℕ → Email → Option Error
  pub mp_order : ℕ → PaymentCall → Result MpOrder
  pub mp_payment : ℕ → String → Result MpPayment

abbrev pub step : World → World
step w = record w { tick = w.tick + 1 }

-- The next few readings of the clock.
abbrev pub read_clock : Env → Action Clock
read_clock env w = (ok (env.now w.tick), step w)

abbrev pub generate_uuid : Env → Action String
generate_uuid env w = (ok (env.new_uuid w.tick), step w)

abbrev pub generate_item_uuids : Env → Action (ℕ → String)
generate_item_uuids env w = (ok (env.item_uuid w.tick), step w)

abbrev found_row : Option ServiceOrder → Result ServiceOrder
found_row none = err service_order_not_found
found_row (some s) = ok s

abbrev pub find_outcome : Option Error → Option ServiceOrder → Result ServiceOrder
find_outcome (some e) row = err e
find_outcome none row = found_row row

-- `FindByID` and `FindByIDWithItems`.
abbrev pub find_by_id : Env → String → Action ServiceOrder
find_by_id env id w = (find_outcome (env.find_error w.tick id) (find_row id w.orders), step w)

abbrev write_order : Option Error → ServiceOrder → World → World
write_order (some _) s w = w
write_order none s w = record w { orders = save_row s w.orders }

-- `Save` and `SaveWithItems` of an order that has an id.
abbrev pub save_order : Env → ServiceOrder → Action (Unit {0})
save_order env s w =
    let failure = env.save_error w.tick s in (of_error failure, step (write_order failure s w))

abbrev write_history : Option Error → History → World → World
write_history (some _) h w = w
write_history none h w = record w { histories = w.histories ++ h ∷ [] }

abbrev pub save_history_record : Env → History → Action (Unit {0})
save_history_record env h w =
    let failure = env.history_error w.tick h in (of_error failure, step (write_history failure h w))

abbrev write_request : Option Error → InventoryRequest → World → World
write_request (some _) r w = w
write_request none r w = record w { requests = w.requests ++ r ∷ [] }

abbrev pub publish_request : Env → InventoryRequest → Action (Unit {0})
publish_request env r w =
    let failure = env.publish_error w.tick r in (of_error failure, step (write_request failure r w))

abbrev pub get_customer_by_id : Env → String → Action CustomerDto
get_customer_by_id env id w = (env.customer w.tick id, step w)

abbrev write_email : Option Error → Email → World → World
write_email (some _) m w = w
write_email none m w = record w { emails = w.emails ++ m ∷ [] }

abbrev pub get_vehicle_by_id : Env → String → Action VehicleDto
get_vehicle_by_id env id w = (env.vehicle w.tick id, step w)

abbrev pub get_product_by_id : Env → String → Action CatalogDto
get_product_by_id env id w = (env.catalog_product w.tick id, step w)

abbrev pub get_service_by_id : Env → String → Action CatalogDto
get_service_by_id env id w = (env.catalog_service w.tick id, step w)

abbrev pub send_email : Env → Email → Action (Unit {0})
send_email env m w =
    let failure = env.email_error w.tick m in (of_error failure, step (write_email failure m w))

-- A call of the Mercado Pago client that answers with an order.
abbrev pub call_mp : Env → PaymentCall → Action MpOrder
call_mp env c w =
    (env.mp_order w.tick c, step (record w { payment_calls = w.payment_calls ++ c ∷ [] }))

abbrev pub call_mp_payment : Env → String → Action MpPayment
call_mp_payment env id w = (
  env.mp_payment w.tick id,
  step (record w { payment_calls = w.payment_calls ++ get_payment id ∷ [] }),
)
