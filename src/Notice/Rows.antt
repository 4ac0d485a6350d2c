-- ===== src/Notice/Rows.antt =====
-- sync-rxdb/conflict-notice.js, `createMemoryConflictStore` and `sweepExpired`: the store of conflict
-- records as a list, and the map from ids that it stands for. Subscribers are told of each change.
use yumyums_purchase_orders.Common.{
  ℕ, ◌+◌, String, ◌≡◌, refl, Bool, true, not, ◌&&◌, ◌||◌, List, [], ◌∷◌, Option, none, some, arith,
  if◌then◌else◌, text_eq, text_cases, eq_refl, eq_iff, inl, inr, any, keep, find, length, map,
  includes,
}
use yumyums_purchase_orders.Common.Int.{ℤ}
use yumyums_purchase_orders.Notice.{Record, within_retention}

abbrev pub has_row : String → List Record → Bool
has_row id rows = any (λ r. text_eq r.id id) rows

-- The record of an id.
abbrev pub row_of : String → List Record → Option Record
row_of id rows = find (λ r. text_eq r.id id) rows

-- `upsert`: the first row of the id is replaced, or the record is pushed.
abbrev pub upsert : Record → List Record → List Record
upsert rec [] = rec ∷ []
upsert rec (r ∷ rows) =
    let rest = upsert rec rows in if text_eq r.id rec.id then rec ∷ rows else r ∷ rest

-- `patch`: the first row of the id is changed. `change` is the spread of the fields that are given, which
-- have no id.
abbrev pub patch : (Record → Record) → String → List Record → List Record
patch change id [] = []
patch change id (r ∷ rows) =
    let rest = patch change id rows in if text_eq r.id id then change r ∷ rows else r ∷ rest

abbrev pub remove_row : String → List Record → List Record
remove_row id rows = keep (λ r. not (text_eq r.id id)) rows

abbrev pub upsert_all : List Record → List Record → List Record
upsert_all [] rows = rows
upsert_all (r ∷ rs) rows = upsert_all rs (upsert r rows)

-- The loop of `sweepExpired` over the rows that `all` gave, with the set of ids to keep: the rows that
-- are left and the number that it returns.
abbrev pub sweep_rows : List String → List Record → List Record × ℕ → List Record × ℕ
sweep_rows ids [] acc = acc
sweep_rows ids (r ∷ rs) (rows, n) =
    if includes ids r.id
    then sweep_rows ids rs (rows, n)
    else sweep_rows ids rs (remove_row r.id rows, n + 1)

abbrev pub ids_of : List Record → List String
ids_of rows = map (λ r. r.id) rows

unfoldable pub sweep_expired : ℤ → ℤ → List Record → List Record × ℕ
unfolding within_retention
sweep_expired now window rows =
    sweep_rows (ids_of (within_retention now window rows)) rows (rows, 0)

-- No id stands twice.
abbrev pub are_unique : List Record → Bool
are_unique [] = true
are_unique (r ∷ rows) = not (has_row r.id rows) && are_unique rows

-- A store is a map: an upsert changes it at one id,
pub row_of-upsert :
    (rec : Record) (rows : List Record) (id : String)
    → row_of id (upsert rec rows) ≡ (if text_eq rec.id id then some rec else row_of id rows)
row_of-upsert rec [] id = refl
row_of-upsert rec (r ∷ rows) id = elim (text_cases r.id rec.id) [
  | inl e ↦ ground (arith, e, eq_refl rec.id)
  | inr d ↦ ground (arith, d, row_of-upsert rec rows id, eq_iff r.id id, eq_iff rec.id id)
]

pub row_of-remove :
    (gone : String) (rows : List Record) (id : String)
    → row_of id (remove_row gone rows) ≡ (if text_eq gone id then none else row_of id rows)
row_of-remove gone [] id = ground arith
row_of-remove gone (r ∷ rows) id =
    ground (arith, row_of-remove gone rows id, eq_iff r.id id, eq_iff r.id gone, eq_iff gone id)

abbrev pub change_row : (Record → Record) → Option Record → Option Record
change_row change none = none
change_row change (some r) = some (change r)

pub row_of-patch :
    (change : Record → Record)
    → ((r : Record) → (change r).id ≡ r.id)
    → (at : String) (rows : List Record) (id : String)
    → row_of id (patch change at rows)
      ≡ (if text_eq at id then change_row change (row_of id rows) else row_of id rows)
row_of-patch change same at [] id = ground arith
row_of-patch change same at (r ∷ rows) id = ground (
  arith,
  same r,
  row_of-patch change same at rows id,
  eq_iff r.id id,
  eq_iff r.id at,
  eq_iff at id,
)

pub has_row-upsert :
    (rec : Record) (rows : List Record) (id : String)
    → has_row id (upsert rec rows) ≡ (text_eq rec.id id || has_row id rows)
has_row-upsert rec [] id = refl
has_row-upsert rec (r ∷ rows) id =
    ground (arith, has_row-upsert rec rows id, eq_iff r.id rec.id, eq_iff r.id id, eq_iff rec.id id)

pub length-upsert :
    (rec : Record) (rows : List Record)
    → length (upsert rec rows) ≡ (if has_row rec.id rows then length rows else length rows + 1)
length-upsert rec [] = ground arith
length-upsert rec (r ∷ rows) = ground (arith, length-upsert rec rows)
