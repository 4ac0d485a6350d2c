-- ===== src/Sync/Ops.antt =====
-- sync.js on workflows.html: the operations that devices send each other, the part of the page that they
-- change, and the small changes that `applyOp` is made of. The collections of the store are objects.
pub mod Apply
pub mod Catchup
pub mod Frame
pub mod Cases
pub mod Bounced
pub mod Replay
pub mod Echo
pub mod Open
pub mod Quiet
pub mod Toasts
mod Tests
use yumyums_purchase_orders.Common.{
  String, Bool, true, false, not, ◌&&◌, List, [], ◌∷◌, ◌++◌, Option, none, some, if◌then◌else◌,
  text_eq, ℕ, any,
}
use yumyums_purchase_orders.Common.Int.{ℤ, leb_ℤ}
use yumyums_purchase_orders.Json.{
  Value, Fields, end, field, undefined, null, bool, num, str, obj, arr, keys, get, has_own,
}
use yumyums_purchase_orders.Store.{lookup, write, remove}

-- An entry of `fieldResponses`, with the texts of its user and its time.
pub record Answer : Type 0 where
  pub value : Value
  pub sub_steps : Option Fields
  pub answered_by : String
  pub answered_at : String

pub record FailNote : Type 0 where
  pub note : Value
  pub severity : Value
  pub photo : Value

-- An entry of REJECTION_FLAGS: `rejectedAt` may be missing or empty.
pub record Flag : Type 0 where
  pub rejected_at : Option String
  pub require_photo : Bool

pub record Draft : Type 0 where
  pub field_id : String
  pub value : Value
  pub answered_at : String

-- The page: its collections, and the id of the checklist that is open in the runner. `draftResponses`
-- may not be an array.
pub record Page : Type 0 where
  pub responses : List (String × Answer)
  pub drafts : Option (List Draft)
  pub fail_notes : List (String × FailNote)
  pub photos : List (String × Value)
  pub flags : List (String × Flag)
  pub runner : Option String

-- The payload of a SET_FIELD has the field, the value and the user's name; a missing name is "".
pub data OpBody : Type 0 where
  set_field : String → Value → String → OpBody
  submit_checklist approve_item reject_item save_template archive_template : OpBody
  other_op : String → OpBody

pub record Op : Type 0 where
  pub device_id : String
  pub user_id : String
  pub lamport_ts : ℕ
  pub server_ts : String
  pub body : OpBody

-- What `applyOp` calls: a store collection that tells its subscribers, a field that is drawn again
-- or flashes, a toast, the runner's progress, the list, and the requests to the server.
pub data Effect : Type 0 where
  changed : String → Effect
  rendered : String → Effect
  flashed : String → Effect
  toasted : String → String → List String → Effect
  progress_updated : Effect
  list_rendered : Effect
  checklists_loaded : Effect
  approvals_loaded : Effect
  templates_loaded : Effect
  reopened : Effect

-- JavaScript's truth of a value.
abbrev pub is_truthy : Value → Bool
is_truthy undefined = false
is_truthy null = false
is_truthy (bool b) = b
is_truthy (num Prim.Native.Nat.ℕ.zero) = false
is_truthy (str Prim.Native.String.String.[]) = false
is_truthy _ = true

-- `v.k`, of a value that is neither null nor undefined.
abbrev pub prop : String → Value → Value
prop k (obj o) = get k o
prop k _ = undefined

abbrev pub is_undefined : Value → Bool
is_undefined undefined = true
is_undefined _ = false

abbrev pub is_nullish : Value → Bool
is_nullish undefined = true
is_nullish null = true
is_nullish _ = false

abbrev pub or_value : Value → Value → Value
or_value v w = if is_truthy v then v else w

-- `'_v' in value`, of an object.
abbrev pub is_bundle : Value → Bool
is_bundle (obj o) = has_own "_v" o
is_bundle _ = false

-- `fieldHasRequiredPhoto`: `is_url` is `startsWith('https://')`.
abbrev pub is_url_value : (String → Bool) → Value → Bool
is_url_value is_url (str s) = is_url s
is_url_value is_url _ = false

pub field_has_required_photo : (String → Bool) → Page → String → Bool
field_has_required_photo is_url p fld =
    let photo : Bool = elim (lookup fld p.photos) [ none ↦ false | some v ↦ is_truthy v ] in
    let url : Bool = elim (lookup fld p.responses) [
      | none ↦ false
      | some a ↦ is_url_value is_url a.value
    ] in
    if photo then true else url

-- `clearRejectionFlag`.
unfoldable pub clear_rejection_flag : (String → Bool) → String → Page → Page
clear_rejection_flag is_url fld p = elim (lookup fld p.flags) [
  | none ↦ p
  | some flag ↦
      if flag.require_photo && not (field_has_required_photo is_url p fld)
      then p
      else record p { flags = remove fld p.flags }
]

-- `drafts.splice(draftIdx, 1)` at the first draft of the field.
abbrev pub drop_draft : String → List Draft → List Draft
drop_draft f [] = []
drop_draft f (d ∷ ds) = let rest = drop_draft f ds in if text_eq d.field_id f then ds else d ∷ rest

-- The first draft of the field takes the value, or a new one is pushed.
abbrev pub put_draft : String → Value → String → List Draft → List Draft
put_draft f v at [] = (record { field_id = f; value = v; answered_at = at }) ∷ []
put_draft f v at (d ∷ ds) =
    let rest = put_draft f v at ds in
    if text_eq d.field_id f then record d { value = v; answered_at = at } ∷ ds else d ∷ rest

abbrev pub has_draft : String → List Draft → Bool
has_draft f ds = any (λ d. text_eq d.field_id f) ds

-- `delete o[k]`.
abbrev pub drop_field : String → Fields → Fields
drop_field k end = end
drop_field k (field j v o) =
    let rest = drop_field k o in if text_eq j k then rest else field j v rest

abbrev pub fail_note_of : Value → FailNote
fail_note_of n = record {
  note = or_value (prop "note" n) (str "");
  severity = or_value (prop "severity" n) (str "");
  photo = or_value (prop "photo" n) null;
}

-- `user_name || 'Someone'`.
abbrev pub display_name : String → String
display_name Prim.Native.String.String.[] = "Someone"
display_name name = name
