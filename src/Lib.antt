-- ===== src/Lib.antt =====
-- The order service of a car workshop (oficina-tech-ms-order-service): service orders, the sagas
-- that reserve and return their parts at the inventory service, and their payment at Mercado Pago.
--
-- Parts, and the files that model them (paths from the root of the repository; `so` stands for
-- internal/modules/service_order, `billing` for internal/modules/billing):
--   Domain/Status     so/domain/service_order/order_status.go: `OrderStatus`, `NewOrderStatus`,
--                     `CanTransitionTo`, `NextStatus`. `unknown` holds any other text.
--   Domain/Stock      so/domain/service_order/inventory_operation_type.go and
--                     internal/shared/dto/stock_operation_dto.go.
--   Domain/Item       so/domain/service_order/service_order_item.go.
--   Domain/Order      so/domain/service_order/service_order.go: the aggregate. A method that changes
--                     the order returns the new order; an error leaves it alone. Order/Basket has
--                     the methods on items and the total.
--   Domain/History    so/domain/service_order/history.go.
--   Platform          the ports. A `World` has the table of orders and the lists of what was stored,
--                     published and sent; an `Action` passes it on, after an error too. An `Env`
--                     decides at each tick whether a call fails and what the outside answers.
--   Saga              so/application/saga/saga_orchestrator.go: `StartSaga`, `CancelOrder`,
--                     `HandleSucceeded`, `HandleFailed`, `RecoverAwaitingSagas`.
--   Billing           billing/application/usecases: the webhook, the retry, preferences,
--                     cancellations, refunds and the status of a payment.
--   UseCases          so/application/usecases: create_service_order.go, update_service_order.go,
--                     advance_service_order_status.go, respond_to_authorization.go and
--                     delete_service_order.go. UseCases/Saving is `SaveWithItems` of
--                     so/infra/persistence/service_order_repository.go, for new orders and items.
--   Queries           get_service_order.go, get_all_service_orders.go and
--                     get_service_order_history.go, on the queries of the same repository.
--   Persistence       so/infra/persistence/service_order_model.go and service_order_item_model.go:
--                     orders as rows and rows as orders.
--   Service           the operations above as calls in any order. Service/Server adds those that
--                     make orders or reach several.
--   Access            internal/shared/infra/http/middleware/rbac_middleware.go: the decision of the
--                     two middlewares on a user's role and id.
--   Messaging         internal/messaging/consumers: the two consumers of the inventory's events, and
--                     customer_deleted.go.
--   Http              so/infra/http: service_order_handler.go behind the roles of routes.go;
--                     internal/shared/utils: error_mapper.go and the envelopes of replies;
--                     billing/infra/http: payment_handler.go and webhook_handler.go.
--   Examples          the theorems at concrete values.
--
-- How the parts interact: the use cases read an order, let the domain decide, and hand transitions
-- with an inventory operation to the saga, which stores the order as waiting and publishes a
-- request. The inventory answers by events, which move the order on. Mercado Pago is asked by the
-- use cases and answers by notifications, for which the webhook asks for the payment.
--
-- Conventions: Go's `int` is its 64-bit pattern (Shared/Int64) and wraps around. A time is a number,
-- and each reading of the clock is an argument of the domain's methods and a value of `Env` for the
-- actions. Prices at Mercado Pago are in cents, where the source divides by 100. A save or a
-- search of an order works on one table, by id, with the items in the order; it holds the rows that
-- are not deleted softly, and the rows of items that an update deletes are moved to a list of their
-- own. The actions get an order as it was stored; that reading an order with a snapshot of its
-- customer sets the time of its last change is modelled in Persistence only. Where the source leaves
-- an order of rows or items of the same time open, they stand as in the table. Loops are structural
-- recursions over lists, so that no fuel is needed.
--
-- Not modelled: the polling of the queues; JSON, SQL, DynamoDB and SQS; the tokens of callers;
-- metrics and logs; the checks of request bodies, and with them the handlers of creations and
-- updates; the page after a payment; the client of Mercado Pago, whose answers are values of
-- `Env`; the fields of a vehicle that are only shown. The ids that the library of UUIDs makes are
-- values of `Env`, and a new row whose id is taken is refused by the key of the table.
mod Shared
pub mod Domain
pub mod Platform
pub mod Saga
pub mod Billing
pub mod UseCases
pub mod Service
pub mod Queries
pub mod Persistence
pub mod Access
pub mod Messaging
pub mod Http
pub mod Examples
