-- ===== src/Http/Routes.antt =====
-- routes.go: which handler a request gets, and who may ask for it. The caller is what the
-- authentication has put in the context.
use oficina_tech_ms_order_se.Shared.{Bool, List, Option, String, [], some, ◌∷◌}
use oficina_tech_ms_order_se.Access.{Decision, forbidden, require_role, served}
use oficina_tech_ms_order_se.Http.Handlers.{
  AuthorizeServiceOrderRequest, Caller, Handler, ListQuery, advance_service_order_status_handler,
  authorize_service_order_handler, delete_service_order_handler, get_all_service_orders_handler,
  get_service_order_handler, get_service_order_history_handler, respond_error_envelope,
}
use oficina_tech_ms_order_se.Platform.Ports.{Env}

-- A request for orders, with the body where it could be decoded.
pub data Request : Type 0 where
  listing : ListQuery → Request
  reading : String → Request
  deleting : String → Request
  advancing : String → Request
  authorizing : String → Option AuthorizeServiceOrderRequest → Request
  tracing : String → Request

unfoldable pub handle : (String → Bool) → Env → Caller → Request → Handler
unfolding get_all_service_orders_handler get_service_order_handler delete_service_order_handler
    advance_service_order_status_handler authorize_service_order_handler
    get_service_order_history_handler
handle is_uuid env caller (listing q) = get_all_service_orders_handler is_uuid env caller q
handle is_uuid env caller (reading id) = get_service_order_handler is_uuid env id
handle is_uuid env caller (deleting id) = delete_service_order_handler is_uuid env id
handle is_uuid env caller (advancing id) = advance_service_order_status_handler is_uuid env id
handle is_uuid env caller (authorizing id body) =
    authorize_service_order_handler is_uuid env id caller body
handle is_uuid env caller (tracing id) = get_service_order_history_handler is_uuid env id

-- The roles of the three chains of middlewares.
unfoldable pub allowed_roles : Request → List String
allowed_roles (listing _) = "CUSTOMER" ∷ "USER" ∷ "MANAGER" ∷ "ADMIN" ∷ []
allowed_roles (authorizing _ _) = "CUSTOMER" ∷ "USER" ∷ "MANAGER" ∷ "ADMIN" ∷ []
allowed_roles (deleting _) = "MANAGER" ∷ "ADMIN" ∷ []
allowed_roles _ = "USER" ∷ "MANAGER" ∷ "ADMIN" ∷ []

-- `RequireRole` in front of a handler.
abbrev pub protect : Decision → Handler → Handler
protect served next w = next w
protect (forbidden complaint) next w = (respond_error_envelope 403 "FORBIDDEN" complaint, w)

unfoldable pub route : (String → Bool) → Env → Caller → Request → Handler
unfolding handle allowed_roles require_role
route is_uuid env caller request =
    protect (require_role (allowed_roles request) (some caller.role))
      (handle is_uuid env caller request)
