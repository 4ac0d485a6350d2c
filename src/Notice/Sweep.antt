-- ===== src/Notice/Sweep.antt =====
-- The store of conflict records over time: emissions that are stored again, and the sweep.
use yumyums_purchase_orders.Common.{
  ℕ, ◌+◌, String, ◌≡◌, refl, sym, ap, ◌∙◌, Bool, true, false, not, ◌||◌, List, [], ◌∷◌, ◌++◌, none,
  some, arith, if◌then◌else◌, eq_refl, eq_iff, inl, inr, all, keep, length, includes, Bool-cases,
}
use mathlib.Core.List.{append_assoc}
use yumyums_purchase_orders.Common.Int.{ℤ, leb_ℤ, ◌-ℤ◌}
use yumyums_purchase_orders.Notice.{Record, within_retention}
use yumyums_purchase_orders.Notice.Rows.{
  has_row, upsert, upsert_all, remove_row, sweep_rows, sweep_expired, ids_of, are_unique,
  has_row-upsert, length-upsert,
}

are_unique-upsert :
    (rec : Record) (rows : List Record)
    → are_unique rows ≡ true
    → are_unique (upsert rec rows) ≡ true
are_unique-upsert rec [] h = refl
are_unique-upsert rec (r ∷ rows) h = ground (
  arith,
  h,
  are_unique-upsert rec rows,
  has_row-upsert rec rows r.id,
  eq_iff r.id rec.id,
  eq_iff rec.id r.id,
)

-- Every record of some list is stored.
abbrev are_stored : List Record → List Record → Bool
are_stored rs rows = all (λ r. has_row r.id rows) rs

upsert-keeps :
    (rec : Record) (rs rows : List Record)
    → are_stored rs rows ≡ true
    → are_stored rs (upsert rec rows) ≡ true
upsert-keeps rec [] rows h = refl
upsert-keeps rec (r ∷ rs) rows h =
    ground (arith, h, upsert-keeps rec rs rows, has_row-upsert rec rows r.id)

upsert_all-keeps :
    (ws rs rows : List Record)
    → are_stored rs rows ≡ true
    → are_stored rs (upsert_all ws rows) ≡ true
upsert_all-keeps [] rs rows h = h
upsert_all-keeps (w ∷ ws) rs rows h =
    upsert_all-keeps ws rs (upsert w rows) (upsert-keeps w rs rows h)

upsert_all-stores : (rs rows : List Record) → are_stored rs (upsert_all rs rows) ≡ true
upsert_all-stores [] rows = refl
upsert_all-stores (r ∷ rs) rows = ground (
  arith,
  upsert_all-keeps rs (r ∷ []) (upsert r rows),
  has_row-upsert r rows r.id,
  eq_refl r.id,
  upsert_all-stores rs (upsert r rows),
)

-- Storing records that are there already adds no row.
pub length-upsert_all :
    (rs rows : List Record) → are_stored rs rows ≡ true → length (upsert_all rs rows) ≡ length rows
length-upsert_all [] rows h = refl
length-upsert_all (r ∷ rs) rows h =
    length-upsert_all rs (upsert r rows) (upsert-keeps r rs rows (ground (arith, h)))
    ∙ ground (arith, h, length-upsert r rows)

-- A list of records that is stored a second time, as when a restore conflicts in turn, adds no row,
-- and the ids stay distinct.
pub upsert_all-again :
    (rs rows : List Record)
    → are_unique rows ≡ true
    → (length (upsert_all rs (upsert_all rs rows)) ≡ length (upsert_all rs rows))
      × (are_unique (upsert_all rs rows) ≡ true)
upsert_all-again rs rows h =
    (length-upsert_all rs (upsert_all rs rows) (upsert_all-stores rs rows), unique rs rows h)
  where
    unique : (ws xs : List Record) → are_unique xs ≡ true → are_unique (upsert_all ws xs) ≡ true
    unique [] xs u = u
    unique (w ∷ ws) xs u = unique ws (upsert w xs) (are_unique-upsert w xs u)

has_row-keep :
    (p : Record → Bool) (id : String) (rows : List Record)
    → has_row id rows ≡ false
    → includes (ids_of (keep p rows)) id ≡ false
has_row-keep p id [] h = refl
has_row-keep p id (r ∷ rows) h = ground (arith, h, has_row-keep p id rows)

-- The set of ids says of each row whether it passes.
abbrev says : List String → (Record → Bool) → Record → Bool
says ids p r = if includes ids r.id then p r else not (p r)

says-more :
    (p : Record → Bool) (id : String) (ids : List String) (ys : List Record)
    → has_row id ys ≡ false
    → all (says ids p) ys ≡ true
    → all (says (id ∷ ids) p) ys ≡ true
says-more p id ids [] h a = refl
says-more p id ids (y ∷ ys) h a =
    ground (arith, h, a, says-more p id ids ys, eq_iff id y.id, eq_iff y.id id)

says-keep :
    (p : Record → Bool) (rows : List Record)
    → are_unique rows ≡ true
    → all (says (ids_of (keep p rows)) p) rows ≡ true
says-keep p [] u = refl
says-keep p (r ∷ rows) u = ground (
  arith,
  u,
  says-keep p rows,
  has_row-keep p r.id rows,
  eq_refl r.id,
  says-more p r.id (ids_of (keep p rows)) rows,
)

remove_row-absent :
    (id : String) (rows : List Record) → has_row id rows ≡ false → remove_row id rows ≡ rows
remove_row-absent id [] h = refl
remove_row-absent id (r ∷ rows) h = ground (arith, h, remove_row-absent id rows)

has_row-append :
    (id : String) (xs ys : List Record) → has_row id (xs ++ ys) ≡ (has_row id xs || has_row id ys)
has_row-append id [] ys = refl
has_row-append id (x ∷ xs) ys = ground (arith, has_row-append id xs ys)

-- Removing a row from among rows with distinct ids.
remove_row-middle :
    (left : List Record) (r : Record) (rest : List Record)
    → are_unique (left ++ r ∷ rest) ≡ true
    → (remove_row r.id (left ++ r ∷ rest) ≡ left ++ rest) × (are_unique (left ++ rest) ≡ true)
remove_row-middle [] r rest u =
    (ground (arith, u, eq_refl r.id, remove_row-absent r.id rest), ground (arith, u))
remove_row-middle (x ∷ left) r rest u =
    let (gone, unique) = remove_row-middle left r rest (ground (arith, u)) in
    (
      ground
          (arith, gone, u, has_row-append x.id left (r ∷ rest), eq_iff x.id r.id, eq_iff r.id x.id),
      ground (arith, unique, u, has_row-append x.id left (r ∷ rest), has_row-append x.id left rest),
    )

sweep_rows-keep :
    (p : Record → Bool) (ids : List String) (left rest : List Record) (n : ℕ)
    → are_unique (left ++ rest) ≡ true
    → all (says ids p) rest ≡ true
    → ((sweep_rows ids rest (left ++ rest, n)).0 ≡ left ++ keep p rest)
      × ((sweep_rows ids rest (left ++ rest, n)).1 + length (keep p rest) ≡ n + length rest)
sweep_rows-keep p ids left [] n u a = (refl, refl)
sweep_rows-keep p ids left (r ∷ rest) n u a = elim (Bool-cases (includes ids r.id)) [
  | inl i ↦
      let kept : p r ≡ true = ground (arith, i, a) in
      let (rows, count) =
        sweep_rows-keep p ids (left ++ r ∷ []) rest n
          (ap are_unique (append_assoc left (r ∷ []) rest) ∙ u) (ground (arith, a)) in
      let same = ap (λ xs. sweep_rows ids rest (xs, n)) (append_assoc left (r ∷ []) rest) in
      rw (i, kept)
        (
          sym (ap (λ x. x.0) same) ∙ (rows ∙ append_assoc left (r ∷ []) (keep p rest)),
          omega (arith, sym (ap (λ x. x.1) same), count),
        )
  | inr i ↦
      let swept : p r ≡ false = ground (arith, i, a) in
      let (gone, unique) = remove_row-middle left r rest u in
      let (rows, count) = sweep_rows-keep p ids left rest (n + 1) unique (ground (arith, a)) in
      let same = ap (λ xs. sweep_rows ids rest (xs, n + 1)) gone in
      rw (i, swept) (ap (λ x. x.0) same ∙ rows, omega (arith, ap (λ x. x.1) same, count))
]

-- The sweep leaves just the records inside the retention window, in their order, and returns how many it
-- removed, of a store whose ids are distinct: no record that the sheet still shows is lost, and
-- one with an unreadable time stays.
pub sweep_expired_lem :
    (now window : ℤ) (rows : List Record)
    → are_unique rows ≡ true
    → ((sweep_expired now window rows).0 ≡ within_retention now window rows)
      × ((sweep_expired now window rows).1 + length (within_retention now window rows)
          ≡ length rows)
unfolding sweep_expired within_retention
sweep_expired_lem now window rows u =
    let (left, count) =
      sweep_rows-keep
        (λ r. elim r.overwritten_ms [ none ↦ true | some t ↦ leb_ℤ (now -ℤ window) t ])
        (ids_of (within_retention now window rows)) [] rows 0 u (says-keep _ rows u) in
    (left, omega (arith, count))
