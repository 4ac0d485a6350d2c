-- ===== src/Store/Tests.antt =====
-- A batch that changes one key twice.
use yumyums_purchase_orders.Common.{ℕ, false, List, [], ◌∷◌}
use yumyums_purchase_orders.Store.{Store, Change, other, object, set_change, set_all_change}

abbrev store : Store ℕ
store = record {
  collections = ("answers", object []) ∷ [];
  subscribers = ("answers", 1 ∷ 2 ∷ []) ∷ [];
  batching = false;
  dirty = [];
}

abbrev edits : List (Change ℕ)
edits =
    set_change "answers" "f1" 3 ∷ set_change "answers" "f2" 4 ∷ set_all_change "gone" (other 0) ∷ []
