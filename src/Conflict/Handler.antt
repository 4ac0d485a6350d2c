-- ===== src/Conflict/Handler.antt =====
-- sync-rxdb/conflict-handler.js: the RxDB adapter (`createHQConflictHandler`) and the description
-- of a `conflict$` emission. `resolve` returns what the code returns with the calls of `onClash`
-- that it made and the warnings that it printed; `console` is there.
use yumyums_purchase_orders.Common.{
  String, Bool, List, [], ◌∷◌, ◌++◌, Option, none, some, if◌then◌else◌,
}
use yumyums_purchase_orders.Json.{Value, Fields, undefined, null, get, has_own}
use yumyums_purchase_orders.Conflict.{
  Options, Input, Clash, Baseline, Outcome, returned, thrown, default_options, provenance_pairs,
  resolve_conflict, document_id, or_empty,
}

-- What `onClash` is called with: `Object.assign({ id, baseline }, c)`.
pub record Notice : Type 0 where
  pub id : Value
  pub baseline : Baseline
  pub clash : Clash

-- The handler: `mergeOpts`, and `onClash` where one was given. A subscriber answers `true` if it
-- returns, and `false` if it throws.
pub record Handler : Type 0 where
  pub merge_opts : Options
  pub on_clash : Option (Notice → Bool)

unfoldable pub create_hq_conflict_handler : Options → Option (Notice → Bool) → Handler
create_hq_conflict_handler opts on_clash = record { merge_opts = opts; on_clash = on_clash }

-- What a call of `resolve` leaves behind.
pub record Resolved : Type 0 where
  pub document : Fields
  pub notices : List Notice
  pub warnings : List Notice

-- The loop over the clashes: each is handed over, and one that throws is warned of.
unfoldable pub notify : (Notice → Bool) → Value → Baseline → List Clash → Resolved → Resolved
notify on_clash id baseline [] r = r
notify on_clash id baseline (c ∷ cs) r =
    let n : Notice = record { id = id; baseline = baseline; clash = c } in
    notify on_clash id baseline cs (record r {
      notices = r.notices ++ n ∷ [];
      warnings = if on_clash n then r.warnings else r.warnings ++ n ∷ [];
    })

unfoldable pub resolve : Handler → Input → Outcome Resolved
unfolding notify
resolve h input = elim (resolve_conflict h.merge_opts input) [
  | thrown e ↦ thrown e
  | returned r ↦
      let quiet : Resolved = record { document = r.document; notices = []; warnings = [] } in
      elim h.on_clash [
        | none ↦ returned quiet
        | some on_clash ↦ returned (
            notify on_clash (document_id input.fork h.merge_opts.primary_path) r.baseline r.clashes
              quiet)
      ]
]

-- `conflictOptsOf`: `none` is a handler that is not one of ours.
unfoldable pub conflict_opts_of : Option Handler → Options
conflict_opts_of none = default_options
conflict_opts_of (some h) = h.merge_opts

pub record Described : Type 0 where
  pub id : Value
  pub baseline : Baseline
  pub clashes : List Clash
  pub winner_actor : Value
  pub winner_at : Value
  pub assumed : Option Fields
  pub fork : Option Fields
  pub master : Fields

abbrev pub or_null : Value → Value
or_null undefined = null
or_null v = v

-- The loop over PROVENANCE_PAIRS, which stops at the first pair whose actor master has.
unfoldable pub winner_of : List (String × String) → Fields → Value × Value
winner_of [] master = (null, null)
winner_of ((actor, at) ∷ pairs) master =
    if has_own actor master
    then (or_null (get actor master), or_null (get at master))
    else winner_of pairs master

-- JavaScript's falsy values, among those that a document id can be.
abbrev pub or_else : Value → Value → Value
or_else undefined w = w
or_else null w = w
or_else (Value.bool Bool.false) w = w
or_else (Value.num Prim.Native.Nat.ℕ.zero) w = w
or_else (Value.str Prim.Native.String.String.[]) w = w
or_else v w = v

unfoldable pub describe_conflict : Options → Input → Outcome Described
unfolding winner_of
describe_conflict opts input = elim (resolve_conflict opts input) [
  | thrown e ↦ thrown e
  | returned r ↦
      let (actor, at) = winner_of provenance_pairs (or_empty input.master) in
      returned (record {
        id =
            or_else (document_id input.fork opts.primary_path)
              (document_id input.master opts.primary_path);
        baseline = r.baseline;
        clashes = r.clashes;
        winner_actor = actor;
        winner_at = at;
        assumed = input.assumed;
        fork = input.fork;
        master = or_empty input.master;
      })
]
