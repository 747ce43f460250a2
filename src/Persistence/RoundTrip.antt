-- ===== src/Persistence/RoundTrip.antt =====
-- service_order_model.go and service_order_item_model.go: an order that is stored and read again is
-- the same order, but for the time of its last change when it has a snapshot of the customer.
use oficina_tech_ms_order_se.Shared.{
  Option, String, ap, false, is_empty, none, refl, some, true, ◌≡◌, List, [], arith, eq_iff,
  if◌then◌else◌, sym, ◌&&◌, ◌∙◌, ◌∷◌,
}
use oficina_tech_ms_order_se.Domain.Errors.{ok, ok_injective}
use oficina_tech_ms_order_se.Domain.History.{type_name}
use oficina_tech_ms_order_se.Domain.Item.{ServiceOrderItem, type_is_valid, Time}
use oficina_tech_ms_order_se.Domain.Order.{
  ServiceOrder, default_saga_status, reconstruct_service_order, set_customer_snapshot,
}
use oficina_tech_ms_order_se.Domain.Status.{OrderStatus, is_valid, to_string, unknown}
use oficina_tech_ms_order_se.Domain.Status.Names.{new_order_status-to_string}
use oficina_tech_ms_order_se.Persistence.Model.{
  ServiceOrderItemModel, UuidOps, from_domain_item, item_to_domain, order_status_ptr,
  order_status_string_ptr, parse_history_id, parse_own_id, parse_uuid_ptr, saga_status_of,
  saga_text, uuid_ptr_string, ServiceOrderModel, from_domain, items_to_domain, to_domain_with_items,
  unless_empty, with_snapshot, item_row, order_row, ptr_text, fields_of,
}
use oficina_tech_ms_order_se.UseCases.ItemInputs.{item_type_of}

spelled : (s : OrderStatus) → is_valid s ≡ true → is_empty (to_string s) ≡ false
unfolding to_string
spelled (unknown t) v = cc
spelled _ v = refl

module _ {Uuid : Type 0} (ops : UuidOps Uuid) where
  -- A text as the library prints it.
  pub record IsKey (t : String) : Type 0 where
    pub given : is_empty t ≡ false
    pub uuid : Uuid
    pub parsed : ops.parse t ≡ ok uuid
    pub printed : ops.print uuid ≡ t

  abbrev pub IsKeyOrNil : Option String → Type 0
  IsKeyOrNil none = Unit
  IsKeyOrNil (some t) = IsKey t

  abbrev pub IsValidOrNil : Option OrderStatus → Type 0
  IsValidOrNil none = Unit
  IsValidOrNil (some s) = is_valid s ≡ true

  -- An item whose ids are keys and whose type is one of the two.
  pub record IsStorableItem (i : ServiceOrderItem) : Type 0 where
    pub id : IsKey i.id
    pub service_order_id : IsKey i.service_order_id
    pub reference_id : IsKey i.reference_id
    pub history_id : IsKeyOrNil i.history_id
    pub item_type : item_type_of (type_name i.item_type) ≡ i.item_type
    pub valid : type_is_valid i.item_type ≡ true

  -- An order whose ids are keys, whose statuses are valid, and whose saga status is not empty and is
  -- spelled as no other is.
  pub record IsStorable (s : ServiceOrder) : Type 0 where
    pub id : IsKey s.id
    pub customer_id : IsKey s.customer_id
    pub vehicle_id : IsKey s.vehicle_id
    pub current_saga_id : IsKeyOrNil s.current_saga_id
    pub status : is_valid s.status ≡ true
    pub target : IsValidOrNil s.saga_target_status
    pub saga_status : default_saga_status (saga_status_of (saga_text s.saga_status)) ≡ s.saga_status

  own_id_parsed : (t : String) → (k : IsKey t) → parse_own_id ops t ≡ ok k.uuid
  own_id_parsed t k = rw k.given k.parsed

  ptr_kept : (o : Option String) → IsKeyOrNil o → uuid_ptr_string ops (parse_uuid_ptr ops o) ≡ o
  ptr_kept none k = refl
  ptr_kept (some t) k = rw (k.given, k.parsed) (ap some k.printed)

  history_id_kept :
      (o : Option String)
      → IsKeyOrNil o
      → (h : Option Uuid) × (parse_history_id ops o ≡ ok h) × (uuid_ptr_string ops h ≡ o)
  history_id_kept none k = (none, refl, refl)
  history_id_kept (some t) k = (some k.uuid, rw k.parsed refl, ap some k.printed)

  target_kept :
      (o : Option OrderStatus)
      → IsValidOrNil o
      → order_status_ptr (order_status_string_ptr o) ≡ ok o
  unfolding order_status_ptr
  target_kept none v = refl
  target_kept (some s) v = rw (spelled s v, new_order_status-to_string s v) refl

  -- An item that is stored is read back as it was.
  pub from_domain_item-item_to_domain :
      (i : ServiceOrderItem)
      → IsStorableItem i
      → (m : ServiceOrderItemModel Uuid) × (from_domain_item ops i ≡ ok m)
        × (item_to_domain ops m ≡ ok i)
  unfolding from_domain_item item_to_domain
  from_domain_item-item_to_domain i st =
      let (h, kept, back) = history_id_kept i.history_id st.history_id in
      (
        item_row ops st.id.uuid st.service_order_id.uuid st.reference_id.uuid h i,
        rw (own_id_parsed i.id st.id, st.service_order_id.parsed, st.reference_id.parsed, kept)
            refl,
        rw
            (
              st.item_type, st.valid, back, st.id.printed, st.service_order_id.printed,
              st.reference_id.printed,
            )
            refl,
      )

  -- The rows of the items, one for each.
  pub data AreRows : List ServiceOrderItem → List (ServiceOrderItemModel Uuid) → Type 0 where
    no_rows : AreRows [] []
    one_more :
        {i : ServiceOrderItem} {m : ServiceOrderItemModel Uuid} {items : List ServiceOrderItem}
        {rows : List (ServiceOrderItemModel Uuid)}
        → IsStorableItem i
        → from_domain_item ops i ≡ ok m
        → AreRows items rows
        → AreRows (i ∷ items) (m ∷ rows)

  items_read_back :
      {items : List ServiceOrderItem} {rows : List (ServiceOrderItemModel Uuid)}
      → AreRows items rows
      → items_to_domain ops rows ≡ ok items
  unfolding items_to_domain
  items_read_back no_rows = refl
  items_read_back (one_more {i} {m} st e r) =
      let (n, stored, read) = from_domain_item-item_to_domain i st in
      let same : n ≡ m = ok_injective (sym stored ∙ e) in
      rw (ap (item_to_domain ops) (sym same) ∙ read, items_read_back r) refl

  -- The time of the last change as it is read: the time of the reading, if there is a snapshot.
  abbrev pub time_read : ServiceOrder → Time → Time
  time_read s now =
      if is_empty s.customer_email && is_empty s.customer_name then s.updated_at else now

  ptr_text-unless_empty : (t : String) → ptr_text (unless_empty t) ≡ t
  ptr_text-unless_empty t = ground (arith, eq_iff t "")

  reconstructed :
      (s : ServiceOrder) (st : IsStorable s)
      → reconstruct_service_order (
          fields_of ops
            (order_row ops st.id.uuid st.customer_id.uuid st.vehicle_id.uuid s)
            s.status
            s.saga_target_status
            s.items)
        ≡ ok (record s { customer_email = ""; customer_name = "" })
  unfolding reconstruct_service_order
  reconstructed s st =
      rw (st.id.printed, st.customer_id.printed, st.vehicle_id.printed)
        (rw (st.id.given, st.customer_id.given, st.vehicle_id.given, st.status)
          (rw (ptr_kept s.current_saga_id st.current_saga_id, st.saga_status) refl))

  snapshot_read :
      (s : ServiceOrder) (a b c : Uuid) (now : Time)
      → with_snapshot ops
          (order_row ops a b c s)
          now
          (record s { customer_email = ""; customer_name = "" })
        ≡ record s { updated_at = time_read s now }
  unfolding with_snapshot set_customer_snapshot
  snapshot_read s a b c now = ground (arith, eq_iff s.customer_email "", eq_iff s.customer_name "")

  -- An order that is stored, and then read with the rows of its items, comes back with all its fields,
  -- but for the time of the last change, which is the time of the reading if the order has a snapshot
  -- of the customer.
  pub from_domain-to_domain_with_items :
      (s : ServiceOrder) (rows : List (ServiceOrderItemModel Uuid)) (now : Time)
      → IsStorable s
      → AreRows s.items rows
      → (m : ServiceOrderModel Uuid) × (from_domain ops s ≡ ok m)
        × (to_domain_with_items ops m rows now ≡ ok (record s { updated_at = time_read s now }))
  unfolding from_domain to_domain_with_items reconstruct_service_order with_snapshot
      set_customer_snapshot
  from_domain-to_domain_with_items s rows now st are = (
    order_row ops st.id.uuid st.customer_id.uuid st.vehicle_id.uuid s,
    rw (own_id_parsed s.id st.id, st.customer_id.parsed, st.vehicle_id.parsed) refl,
    rw
        (
          new_order_status-to_string s.status st.status,
          target_kept s.saga_target_status st.target,
          items_read_back are,
        )
        (rw (reconstructed s st)
          (ap ok (snapshot_read s st.id.uuid st.customer_id.uuid st.vehicle_id.uuid now))),
  )
