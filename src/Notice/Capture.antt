-- ===== src/Notice/Capture.antt =====
-- sync-rxdb/conflict-notice.js, `recordFromClash` and `recordsFromConflict`: a `conflict$` emission as records of the
-- local store. `date` is `Date`, `text_of` JavaScript's text of a value, `iso` the text of the time now.
use Prim.Native.String.{◌++◌ as text_append}
use text.Mathlib.TextLemmas.{append_cancel_left}
use yumyums_purchase_orders.Common.{
  ◌≤◌, String, ◌≡◌, refl, ap, ◌∙◌, Bool, true, false, List, [], ◌∷◌, Option, some, arith,
  if◌then◌else◌, text_eq, text_cases, eq_refl, inl, inr, map, includes, ◌⊎◌,
}
use yumyums_purchase_orders.Common.Int.{ℤ}
use yumyums_purchase_orders.Json.{Value, Fields, undefined, null, str, get}
use yumyums_purchase_orders.Conflict.{Options, Clash, returned, resolve_with}
use yumyums_purchase_orders.Conflict.Merge.{clash_at}
use yumyums_purchase_orders.Conflict.Report.{
  clash_of, entries, edit_survives_or_reported, resolve_with-entries,
}
use yumyums_purchase_orders.Conflict.Handler.{Described, describe_conflict, or_null, or_else}
use yumyums_purchase_orders.Conflict.Notices.{describe_conflict-clashes}
use yumyums_purchase_orders.Notice.{Record, or_text}
use yumyums_purchase_orders.Notice.Rows.{row_of, upsert, upsert_all, row_of-upsert}

-- `ctx`, without what is only drawn; a text that is missing is "".
pub record Context : Type 0 where
  pub submission_id : String
  pub field_removed : Bool
  pub now : String

module _ (date : String → Option ℤ) (text_of : Value → String) (iso : String) where
  -- `v || ''`, as text.
  abbrev pub text_or_empty : Value → String
  text_or_empty v = text_of (or_else v (str ""))

  -- `recordIdFor`.
  abbrev pub record_id_for : Value → String → String
  record_id_for doc_id field_id = text_append (text_or_empty doc_id) (text_append "::" field_id)

  -- `described.winnerAt || ctx.now || new Date().toISOString()`.
  abbrev pub time_of : Context → Value → String
  time_of ctx at = text_of (or_else at (str (or_text ctx.now iso)))

  unfoldable pub record_from_clash : Context → Described → Clash → Record
  record_from_clash ctx d c = record {
    id = record_id_for d.id c.name;
    doc_id = text_or_empty d.id;
    submission_id = or_text ctx.submission_id (text_or_empty (get "submission_id" d.master));
    field_id = c.name;
    field_removed = ctx.field_removed;
    discarded_value = or_null c.discarded;
    current_value = or_null c.winner;
    overwritten_by = or_else d.winner_actor null;
    overwritten_at = time_of ctx d.winner_at;
    overwritten_ms = date (time_of ctx d.winner_at);
    status = "open";
    undone = false;
    failure = "";
  }

  unfoldable pub records_from_conflict : Context → Described → List Record
  unfolding record_from_clash
  records_from_conflict ctx d = map (record_from_clash ctx d) d.clashes

  -- Within a document, ids tell fields apart.
  pub record_id_for-field :
      (doc : Value) (f g : String) → record_id_for doc f ≡ record_id_for doc g → f ≡ g
  record_id_for-field doc f g e =
      append_cancel_left "::" f g
        (append_cancel_left (text_or_empty doc) (text_append "::" f) (text_append "::" g) e)

  id_apart :
      (doc : Value) (f g : String)
      → text_eq f g ≡ false
      → text_eq (record_id_for doc f) (record_id_for doc g) ≡ false
  id_apart doc f g d = elim (text_cases (record_id_for doc f) (record_id_for doc g)) [
    | inl e ↦ absurd (clash (record_id_for-field doc f g e))
    | inr n ↦ n
  ]
    where
      clash : f ≡ g → ⊥
      clash e = ground (arith, d, e, eq_refl g)

  module _ (ctx : Context) (d : Described) where
    stays :
        (j : String) (cs : List Clash) (rows : List Record)
        → entries j cs ≡ 0
        → row_of (record_id_for d.id j) (upsert_all (map (record_from_clash ctx d) cs) rows)
          ≡ row_of (record_id_for d.id j) rows
    unfolding record_from_clash
    stays j [] rows h = refl
    stays j (c ∷ cs) rows h =
        let other : text_eq c.name j ≡ false = ground (arith, h) in
        stays j cs (upsert (record_from_clash ctx d c) rows) (ground (arith, h))
        ∙ (row_of-upsert (record_from_clash ctx d c) rows (record_id_for d.id j)
            ∙ ap
                (λ b.
                  if b
                  then some (record_from_clash ctx d c)
                  else row_of (record_id_for d.id j) rows)
                (id_apart d.id c.name j other))

    captured :
        (j : String) (cs : List Clash) (rows : List Record) (c : Clash)
        → entries j cs ≤ 1
        → clash_of j cs ≡ some c
        → row_of (record_id_for d.id j) (upsert_all (map (record_from_clash ctx d) cs) rows)
          ≡ some (record_from_clash ctx d c)
    unfolding record_from_clash
    captured j [] rows c once h = ground (arith, h)
    captured j (x ∷ cs) rows c once h = elim (text_cases x.name j) [
      | inl e ↦
          let none_left : entries j cs ≡ 0 = ground (arith, once, e, eq_refl j) in
          let same : x ≡ c = ground (arith, h, e, eq_refl j) in
          stays j cs (upsert (record_from_clash ctx d x) rows) none_left
          ∙ (row_of-upsert (record_from_clash ctx d x) rows (record_id_for d.id j)
              ∙ (ap
                    (λ b.
                      if b
                      then some (record_from_clash ctx d x)
                      else row_of (record_id_for d.id j) rows)
                    (ap (λ k. text_eq (record_id_for d.id k) (record_id_for d.id j)) e
                      ∙ eq_refl (record_id_for d.id j))
                  ∙ ap (λ y. some (record_from_clash ctx d y)) same))
      | inr n ↦
          captured j cs (upsert (record_from_clash ctx d x) rows) c (ground (arith, once, n))
            (ground (arith, h, n))
    ]

  -- What the store holds of a field's edit: an open record, with the fork's value and with master's.
  abbrev pub HasEdit : Described → String → Value → Value → List Record → Type 0
  HasEdit d j mine theirs rows =
      (r : Record) × ((row_of (record_id_for d.id j) rows ≡ some r)
        × ((r.discarded_value ≡ or_null mine)
            × ((r.current_value ≡ or_null theirs) × ((r.field_id ≡ j) × (r.status ≡ "open")))))

  -- No edit that a conflict takes away is lost to the crew member: a field that the fork changed from the
  -- baseline, neither reserved nor a provenance field, keeps the fork's value in the resolved row, or
  -- equals master's value, or the store that took the emission's records, whatever it held before,
  -- has under the id of that document and field an open record with the value that was given up and
  -- the one that won, a missing value as null. The equality test finds two missing values equal.
  pub edit_survives_or_stored :
      (ctx : Context) (opts : Options) (base fork master : Fields) (d : Described)
      (rows : List Record) (j : String)
      → describe_conflict opts
          (record { assumed = some base; fork = some fork; master = some master })
        ≡ returned d
      → opts.is_value_equal undefined undefined ≡ true
      → includes opts.reserved j ≡ false
      → includes opts.provenance j ≡ false
      → opts.is_value_equal (get j fork) (get j base) ≡ false
      → (get j (resolve_with opts (some base) fork master).document ≡ get j fork)
        ⊎ ((opts.is_value_equal (get j fork) (get j master) ≡ true)
            ⊎ HasEdit d j
                (get j fork)
                (get j master)
                (upsert_all (records_from_conflict ctx d) rows))
  unfolding records_from_conflict record_from_clash
  edit_survives_or_stored ctx opts base fork master d rows j e u r p c =
      let same = describe_conflict-clashes opts base fork master d e in
      let once : entries j d.clashes ≤ 1 =
        ground (arith, ap (entries j) same, resolve_with-entries opts (some base) fork master j) in
      elim (edit_survives_or_reported opts base fork master j u r p c) [
        | inl kept ↦ inl kept
        | inr (inl equal) ↦ inr (inl equal)
        | inr (inr reported) ↦ inr (
            inr (
              record_from_clash ctx d (clash_at fork master j),
              (
                captured ctx d j d.clashes rows (clash_at fork master j) once
                    (ap (clash_of j) same ∙ reported),
                (refl, (refl, (refl, refl))),
              ),
            ))
      ]
