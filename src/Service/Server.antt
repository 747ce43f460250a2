-- ===== src/Service/Server.antt =====
-- Every entry of the service that writes orders: the calls that reach one order, the creation of an
-- order, and the message of a deleted customer.
use oficina_tech_ms_order_se.Shared.{List, [], ◌∷◌}
use oficina_tech_ms_order_se.Messaging.CustomerDeleted.{handle_customer_deleted}
use oficina_tech_ms_order_se.Messaging.Decoding.{Message, Wire}
use oficina_tech_ms_order_se.Platform.Monad.{World}
use oficina_tech_ms_order_se.Platform.Ports.{Env}
use oficina_tech_ms_order_se.Service.Calls.{ServiceCall, run}
use oficina_tech_ms_order_se.UseCases.Creation.{CreationInput, create_service_order}

pub data Entry : Type 0 where
  called : ServiceCall → Entry
  created : CreationInput → Entry
  customer_removed : Message → Entry

-- The state that an entry leaves, whether it succeeds or fails.
unfoldable pub serve : Wire → Env → Entry → World → World
unfolding run create_service_order handle_customer_deleted
serve wire env (called c) w = run env c w
serve wire env (created input) w = (create_service_order env input w).1
serve wire env (customer_removed message) w = (handle_customer_deleted wire env message w).1

unfoldable pub serve_all : Wire → Env → List Entry → World → World
unfolding serve
serve_all wire env [] w = w
serve_all wire env (e ∷ rest) w = serve_all wire env rest (serve wire env e w)
