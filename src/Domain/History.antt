-- ===== src/Domain/History.antt =====
-- history.go: the records of an order's changes, and the metadata that they carry. `map[string]any`
-- is an association list of the kinds of values that the code stores in it.
pub mod Changes
use Prim.Native.Char.{code}
use oficina_tech_ms_order_se.Shared.{
  Bool, List, Option, String, [], false, if◌then◌else◌, is_empty, leb, length, ltb, none, not,
  select, some, str_eq, true, ℕ, ◌%◌, ◌&&◌, ◌++◌, ◌==◌, ◌^◌, ◌||◌, ◌∷◌,
}
use oficina_tech_ms_order_se.Domain.Errors.{
  Result, err, fail_if, invalid_service_order_id, ok, ◌>>◌, ◌>>=◌,
}
use oficina_tech_ms_order_se.Domain.Item.{
  ItemType, ServiceOrderItem, Time, is_deleted, other_type, product, service,
}
use oficina_tech_ms_order_se.Domain.Order.{ServiceOrder, reconstruct_service_order}
use oficina_tech_ms_order_se.Domain.Status.{OrderStatus, status_eq, to_string}
use oficina_tech_ms_order_se.Domain.Stock.{StockOperation}

-- One item of the snapshot that the saga stores.
pub record SnapshotItem : Type 0 where
  pub id : String
  pub item_type : ItemType
  pub reference_id : String
  pub name : String
  pub quantity : ℕ
  pub unit_price : ℕ
  pub item_subtotal : ℕ

pub record Snapshot : Type 0 where
  pub order_id : String
  pub customer_id : String
  pub vehicle_id : String
  pub status : String
  pub total : ℕ
  pub items : List SnapshotItem
  pub captured_at : Time

pub data MetadataValue : Type 0 where
  text : String → MetadataValue
  -- The map of "old" and "new".
  change : String → String → MetadataValue
  flag : Bool → MetadataValue
  moment : Time → MetadataValue
  stock : StockOperation → MetadataValue
  snapshot : Snapshot → MetadataValue

abbrev pub Metadata : Type 0
Metadata = List (String × MetadataValue)

-- `metadata[key] = value`.
unfoldable pub put : String → MetadataValue → Metadata → Metadata
put key value [] = (key, value) ∷ []
put key value ((k, v) ∷ rest) =
    if str_eq k key then (key, value) ∷ rest else (k, v) ∷ put key value rest

unfoldable pub get : String → Metadata → Option MetadataValue
get key [] = none
get key ((k, v) ∷ rest) = let below = get key rest in if str_eq k key then some v else below

pub record History : Type 0 where
  pub id : String
  pub service_order_id : String
  pub metadata : Metadata
  pub status : OrderStatus
  pub created_at : Time

unfoldable pub new_history : String → Metadata → OrderStatus → Time → Result History
new_history service_order_id metadata status now = do
  fail_if (is_empty service_order_id) invalid_service_order_id
  ok (record {
    id = "";
    service_order_id = service_order_id;
    metadata = metadata;
    status = status;
    created_at = now;
  })

-- `if old != new { changes[key] = … }` for two texts.
unfoldable pub note_change : String → String → String → Metadata → Metadata
unfolding put
note_change key old new changes =
    if str_eq old new then changes else put key (change old new) changes

unfoldable pub build_history_metadata : ServiceOrder → ServiceOrder → Metadata
unfolding note_change put
build_history_metadata old_order new_order =
    let customers = note_change "customer_id" old_order.customer_id new_order.customer_id [] in
    let vehicles = note_change "vehicle_id" old_order.vehicle_id new_order.vehicle_id customers in
    if status_eq old_order.status new_order.status
    then vehicles
    else put "status" (change (to_string old_order.status) (to_string new_order.status)) vehicles

unfoldable pub build_status_only_metadata : OrderStatus → OrderStatus → Metadata
build_status_only_metadata old_status new_status =
    ("status", change (to_string old_status) (to_string new_status)) ∷ []

abbrev pub filter_active_items : List ServiceOrderItem → List ServiceOrderItem
filter_active_items = select (λ i. not (is_deleted i))

-- `string(rune(n))` of an `int`: the code point, or U+FFFD where the low 32 bits are none.
unfoldable pub rune_text : ℕ → ℕ
rune_text n =
    let r = n % 2 ^ 32 in if ltb r 0x110000 && not (leb 0xD800 r && ltb r 0xE000) then r else 0xFFFD

-- A text as its code points, to which the runes are appended.
abbrev pub code_points : String → List ℕ
code_points String.[] = []
code_points (String.◌∷◌ c s) = code c ∷ code_points s

abbrev pub type_name : ItemType → String
type_name product = "PRODUCT"
type_name service = "SERVICE"
type_name (other_type s) = s

unfoldable pub build_item_signature : ServiceOrderItem → List ℕ
unfolding rune_text
build_item_signature i =
    code_points (type_name i.item_type)
    ++ (b'|'
        ∷ (code_points i.reference_id
            ++ (b'|'
                ∷ (code_points i.name
                    ++ (b'|' ∷ rune_text i.quantity ∷ b'|' ∷ rune_text i.unit_price ∷ [])))))

-- Equality of two signatures.
unfoldable pub same_signature : List ℕ → List ℕ → Bool
same_signature [] [] = true
same_signature [] (_ ∷ _) = false
same_signature (_ ∷ _) [] = false
same_signature (a ∷ as') (b ∷ bs) = a == b && same_signature as' bs

-- Membership in `oldSignatures`.
unfoldable pub signed_in : List ServiceOrderItem → List ℕ → Bool
unfolding same_signature build_item_signature
signed_in [] signature = false
signed_in (i ∷ rest) signature =
    same_signature (build_item_signature i) signature || signed_in rest signature

-- The loop over the new items.
unfoldable pub some_unsigned : List ServiceOrderItem → List ServiceOrderItem → Bool
unfolding signed_in
some_unsigned olds [] = false
some_unsigned olds (i ∷ rest) =
    not (signed_in olds (build_item_signature i)) || some_unsigned olds rest

unfoldable pub has_items_changed : List ServiceOrderItem → List ServiceOrderItem → Bool
unfolding some_unsigned
has_items_changed old_items new_items =
    let olds = filter_active_items old_items in
    let news = filter_active_items new_items in
    if length olds == length news then some_unsigned olds news else true

unfoldable pub build_history_metadata_with_items : ServiceOrder → ServiceOrder → Metadata
unfolding build_history_metadata has_items_changed
build_history_metadata_with_items old_order new_order =
    let changes = build_history_metadata old_order new_order in
    if has_items_changed old_order.items new_order.items
    then put "items_changed" (flag true) changes
    else changes

-- `CaptureOrderState`; the items are copied, so later writes to the order do not reach the copy.
-- `ReconstructServiceOrder` has no error for an order with ids and a valid status; its error is
-- dropped, and `none` is the nil order that is left then.
unfoldable pub capture_order_state : ServiceOrder → Option ServiceOrder
unfolding reconstruct_service_order
capture_order_state order = elim (reconstruct_service_order order) [
  | ok copy ↦ some copy
  | err _ ↦ none
]
