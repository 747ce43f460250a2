-- ===== src/Platform/Table.antt =====
-- The table of orders, by id. Rows that are deleted softly are found by no query, and do not stand
-- here.
use oficina_tech_ms_order_se.Shared.{
  List, Option, String, [], arith, eq_iff, if◌then◌else◌, none, refl, some, str_eq, ◌∷◌, ◌≡◌,
}
use oficina_tech_ms_order_se.Domain.Order.{ServiceOrder}

unfoldable pub find_row : String → List ServiceOrder → Option ServiceOrder
find_row id [] = none
find_row id (o ∷ rest) = let below = find_row id rest in if str_eq o.id id then some o else below

-- The row of that id is replaced, or a row is added.
unfoldable pub save_row : ServiceOrder → List ServiceOrder → List ServiceOrder
save_row s [] = s ∷ []
save_row s (o ∷ rest) = if str_eq o.id s.id then s ∷ rest else o ∷ save_row s rest

-- A saved row is the one that its id finds, and no other id finds another row than before.
pub find_row-save_row :
    (id : String) (s : ServiceOrder) (rows : List ServiceOrder)
    → find_row id (save_row s rows) ≡ (if str_eq s.id id then some s else find_row id rows)
unfolding find_row save_row
find_row-save_row id s [] = refl
find_row-save_row id s (o ∷ rest) =
    ground (arith, eq_iff o.id s.id, eq_iff s.id id, eq_iff o.id id, find_row-save_row id s rest)

pub find_row_id :
    (id : String) (rows : List ServiceOrder) {s : ServiceOrder}
    → find_row id rows ≡ some s
    → s.id ≡ id
unfolding find_row
find_row_id id [] h = cc
find_row_id id (o ∷ rest) {s} h = ground (arith, eq_iff o.id id, find_row_id id rest {s = s})
