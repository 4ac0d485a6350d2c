-- ===== src/ItemName/Tests.antt =====
-- An item whose nickname was promoted.
use yumyums_purchase_orders.Common.{String, none, some}
use yumyums_purchase_orders.ItemName.{Item}

abbrev same : String → String
same t = t

abbrev honey : Item
honey = record {
  display_name = some "Honey";
  item_display_name = none;
  item_name = none;
  description = some "100% Cl Hny";
  name = none;
}
