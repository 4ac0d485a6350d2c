-- ===== src/Conflict.antt =====
-- sync-rxdb/conflict-handler.js: the field-level three-way merge of a replication conflict.
-- Documents are objects of Json.antt. A state that may be missing is an `Option`; a `throw` is
-- `thrown`. The options of `opts` are the record Options, its defaults `default_options`.
pub mod Handler
pub mod Merge
pub mod Report
pub mod Fallback
pub mod Notices
pub mod Equal
mod Tests
use yumyums_purchase_orders.Common.{
  String, Bool, true, false, not, ◌&&◌, ◌||◌, List, [], ◌∷◌, ◌++◌, Option, none, some, ◌==◌,
  if◌then◌else◌, text_eq, includes,
}
use yumyums_purchase_orders.Json.{
  Value, Items, Fields, undefined, null, bool, num, str, arr, obj, no_items, item, end, field, keys,
  has_own, get, put, items_length, fields_length,
}

abbrev pub reserved_fields : List String
reserved_fields = "_rev" ∷ "_meta" ∷ "_attachments" ∷ "_modified" ∷ []

abbrev pub provenance_fields : List String
provenance_fields =
    "updated_by" ∷ "updated_at" ∷ "answered_by" ∷ "answered_at" ∷ "rejected_by" ∷ "rejected_at" ∷ []

abbrev pub provenance_pairs : List (String × String)
provenance_pairs =
    ("answered_by", "answered_at")
    ∷ ("rejected_by", "rejected_at")
    ∷ ("updated_by", "updated_at")
    ∷ []

abbrev pub bool_eq : Bool → Bool → Bool
bool_eq true b = b
bool_eq false b = not b

-- `valuesEqual`. The objects that `===` finds identical are not told apart from equal ones here:
-- the early `return true` of the code answers what the walk answers on a value with distinct keys.
unfoldable mutual
  pub values_equal : Value → Value → Bool
  values_equal undefined undefined = true
  values_equal null null = true
  values_equal (bool a) (bool b) = bool_eq a b
  values_equal (num a) (num b) = a == b
  values_equal (str a) (str b) = text_eq a b
  values_equal (arr a) (arr b) = items_length a == items_length b && items_equal a b
  values_equal (obj a) (obj b) = fields_length a == fields_length b && fields_equal a b
  values_equal _ _ = false

  -- The loop over the indices of two arrays of one length.
  pub items_equal : Items → Items → Bool
  items_equal no_items _ = true
  items_equal (item a as') (item b bs) = values_equal a b && items_equal as' bs
  items_equal (item a as') no_items = false

  -- The loop over the keys of the first object.
  pub fields_equal : Fields → Fields → Bool
  fields_equal end b = true
  fields_equal (field k v a) b = has_own k b && values_equal v (get k b) && fields_equal a b

-- `opts` of `resolveConflict`, with `primaryPath`, which rides in the same object.
pub record Options : Type 0 where
  pub reserved : List String
  pub provenance : List String
  pub is_value_equal : Value → Value → Bool
  pub primary_path : Option String

abbrev pub default_options : Options
default_options = record {
  reserved = reserved_fields;
  provenance = provenance_fields;
  is_value_equal = values_equal;
  primary_path = none;
}

-- `RxConflictHandlerInput`.
pub record Input : Type 0 where
  pub assumed : Option Fields
  pub fork : Option Fields
  pub master : Option Fields

pub data Baseline : Type 0 where
  assumed_master absent : Baseline

pub record Clash : Type 0 where
  pub name : String
  pub discarded : Value
  pub winner : Value

pub record Resolution : Type 0 where
  pub document : Fields
  pub clashes : List Clash
  pub baseline : Baseline

pub data Outcome {ℓ} (A : Type ℓ) : Type ℓ where
  returned : A → Outcome A
  thrown : String → Outcome A

-- `keys.add(k)` on the set, which keeps the order of insertion.
abbrev pub add_key : List String → String → List String
add_key seen k = if includes seen k then seen else seen ++ k ∷ []

-- The inner loop of `mergeableFields`, over the keys of one state.
unfoldable pub add_keys : List String → List String → List String → List String
add_keys reserved [] seen = seen
add_keys reserved (k ∷ ks) seen =
    add_keys reserved ks (if includes reserved k then seen else add_key seen k)

abbrev pub state_keys : Option Fields → List String
state_keys none = []
state_keys (some o) = keys o

unfoldable pub mergeable_fields : Option Fields → Fields → Fields → List String → List String
unfolding add_keys
mergeable_fields assumed fork master reserved =
    add_keys reserved (keys master)
      (add_keys reserved (keys fork) (add_keys reserved (state_keys assumed) []))

-- The body of the loop over the fields: what it does to the document and to the clashes.
unfoldable pub merge_field :
    Options → Option Fields → Fields → Fields → String → Fields × List Clash → Fields × List Clash
merge_field opts assumed fork master k (document, clashes) =
    let f = get k fork in
    let m = get k master in
    let recorded =
      if includes opts.provenance k
      then clashes
      else clashes ++ (record { name = k; discarded = f; winner = m }) ∷ [] in
    if opts.is_value_equal f m then (document, clashes) else elim assumed [
      | none ↦ (document, recorded)
      | some base ↦
          let fork_changed = not (opts.is_value_equal f (get k base)) in
          let master_changed = not (opts.is_value_equal m (get k base)) in
          if fork_changed && not master_changed
          then (put k f document, clashes)
          else if not fork_changed && master_changed
          then (document, clashes)
          else if fork_changed && master_changed
          then (document, recorded)
          else (document, clashes)
    ]

unfoldable pub merge_fields :
    Options
    → Option Fields
    → Fields
    → Fields
    → List String
    → Fields × List Clash
    → Fields × List Clash
merge_fields opts assumed fork master [] acc = acc
merge_fields opts assumed fork master (k ∷ ks) acc =
    merge_fields opts assumed fork master ks (merge_field opts assumed fork master k acc)

-- `(input && input.newDocumentState) || {}`.
abbrev pub or_empty : Option Fields → Fields
or_empty none = end
or_empty (some o) = o

abbrev pub baseline_of : Option Fields → Baseline
baseline_of none = absent
baseline_of (some o) = assumed_master

abbrev pub no_master : String
no_master = "sync-rxdb/conflict-handler: realMasterState is required to resolve a conflict"

-- `Object.assign({}, master)` is the document that the loop starts from.
unfoldable pub resolve_with : Options → Option Fields → Fields → Fields → Resolution
unfolding merge_fields merge_field mergeable_fields
resolve_with opts assumed fork master =
    let (document, clashes) =
      merge_fields opts assumed fork master (mergeable_fields assumed fork master opts.reserved)
        (master, []) in
    record { document = document; clashes = clashes; baseline = baseline_of assumed }

unfoldable pub resolve_conflict : Options → Input → Outcome Resolution
resolve_conflict opts input = elim input.master [
  | none ↦ thrown no_master
  | some master ↦ returned (resolve_with opts input.assumed (or_empty input.fork) master)
]

-- `doc[primaryPath || 'id']`, of a state that may be missing.
unfoldable pub document_id : Option Fields → Option String → Value
document_id none path = undefined
document_id (some doc) none = get "id" doc
document_id (some doc) (some path) = get (if text_eq path "" then "id" else path) doc
