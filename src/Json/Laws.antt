-- ===== src/Json/Laws.antt =====
-- Laws of reading and writing the properties of an object.
use yumyums_purchase_orders.Common.{
  String, ◌≡◌, refl, false, ◌||◌, arith, if◌then◌else◌, text_eq, eq_iff, includes,
}
use yumyums_purchase_orders.Json.{Value, Fields, undefined, end, field, keys, has_own, get, put}

pub get-put :
    (j k : String) (v : Value) (o : Fields)
    → get j (put k v o) ≡ (if text_eq k j then v else get j o)
get-put j k v end = refl
get-put j k v (field i w o) = ground (arith, eq_iff k j, eq_iff i k, eq_iff i j, get-put j k v o)

pub get-not_own : (k : String) (o : Fields) → has_own k o ≡ false → get k o ≡ undefined
get-not_own k end h = refl
get-not_own k (field j v o) h = ground (arith, get-not_own k o)

pub includes-keys : (k : String) (o : Fields) → includes (keys o) k ≡ has_own k o
includes-keys k end = refl
includes-keys k (field j v o) = λ i. text_eq j k || includes-keys k o i
