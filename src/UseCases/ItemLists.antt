-- ===== src/UseCases/ItemLists.antt =====
-- The loops over an order's items that call nothing outside the order: those of SaveWithItems in
-- service_order_repository.go, and of saveHistory in update_service_order.go.
use oficina_tech_ms_order_se.Shared.{
  List, Option, String, [], if◌then◌else◌, is_empty, is_some, none, not, some, suc, zero, ℕ, ◌&&◌,
  ◌∷◌,
}
use oficina_tech_ms_order_se.Domain.Errors.{Result, ok, ◌>>=◌}
use oficina_tech_ms_order_se.Domain.Item.{
  Clock, ServiceOrderItem, is_deleted, set_history_id, set_id,
}

-- `SetID` for the items that have none, by ids that are made for their places.
unfoldable pub identify_items :
    (ℕ → String) → ℕ → List ServiceOrderItem → Result (List ServiceOrderItem)
unfolding set_id
identify_items ids place [] = ok []
identify_items ids place (i ∷ rest) = do
  j ← if is_empty i.id then set_id i (ids place) else ok i
  below ← identify_items ids (suc place) rest
  ok (j ∷ below)

-- The deleted items that no history names yet get that history; the clock is read once for each.
unfoldable pub link_items :
    String → Clock → ℕ → List ServiceOrderItem → Result (List ServiceOrderItem)
unfolding set_history_id
link_items history_id now place [] = ok []
link_items history_id now place (i ∷ rest) = do
  j ←
      if is_deleted i && not (is_some i.history_id)
      then set_history_id i history_id (now place)
      else ok i
  below ← link_items history_id now (suc place) rest
  ok (j ∷ below)

-- `item.SetServiceOrderID(model.ID.String())`; the id that the repository gives is not empty.
abbrev pub owned : String → ServiceOrderItem → ServiceOrderItem
owned order_id i = record i { service_order_id = order_id }

-- `order.Items()[place]`.
unfoldable pub item_at : ℕ → List ServiceOrderItem → Option ServiceOrderItem
item_at place [] = none
item_at zero (i ∷ rest) = some i
item_at (suc place) (i ∷ rest) = item_at place rest
