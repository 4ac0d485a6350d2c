-- ===== src/Scope/Plan.antt =====
-- sync-rxdb/client.js: the plan of one collection's replication (`scopeIdentity`, `scopeFingerprint`,
-- `scopePlanFor`) and the start of all of them (`startHQReplication`). What `replicate` starts is
-- RxDB's: a replication is its identifier, its table and its plan.
use Prim.Native.Nat.{bit_xor}
use Prim.Native.String.{String, ◌++◌}
use yumyums_purchase_orders.Common.{
  ℕ, zero, suc, ◌+◌, ◌*◌, ◌/◌, ◌%◌, ◌^◌, Bool, List, [], ◌∷◌, Option, none, some,
}
use mathlib.Core.List
use yumyums_purchase_orders.Scope.{
  RawScope, Scope, fill, list, Checked, ok, refused, no_filter, normalize_scope, raw_of, codes,
  ◌>>=◌,
}
use yumyums_purchase_orders.Scope.Filter.{
  CollectionKey, templates, checklists, responses, approvals, other_key, Node, RealtimeFilter,
  scope_filter_for, realtime_filter_for, serialize_filter,
}

-- `scopeIdentity`.
abbrev pub scope_identity : Scope → String
scope_identity (fill user checklist template fields) = "fill:" ++ user ++ ":" ++ checklist
scope_identity (list user since ids) = "list:" ++ user

abbrev pub word : ℕ
word = 4294967296

-- One round of the two sums of `scopeFingerprint`: `Math.imul(…) >>> 0` is the product modulo 2^32.
abbrev pub fnv_step : ℕ → ℕ → ℕ
fnv_step fnv c = bit_xor fnv c * 16777619 % word

abbrev pub djb_step : ℕ → ℕ → ℕ
djb_step djb c = (djb * 33 % word + c) % word

abbrev pub fnv_sum : ℕ → List ℕ → ℕ
fnv_sum fnv [] = fnv
fnv_sum fnv (c ∷ cs) = fnv_sum (fnv_step fnv c) cs

abbrev pub djb_sum : ℕ → List ℕ → ℕ
djb_sum djb [] = djb
djb_sum djb (c ∷ cs) = djb_sum (djb_step djb c) cs

-- `toString(16).padStart(8, '0')` of a number below 2^32: its eight digits, the highest first.
abbrev pub hex_digits : ℕ → ℕ → List ℕ
hex_digits zero n = []
hex_digits (suc k) n = n / 16 ^ k % 16 ∷ hex_digits k n

-- `scopeFingerprint`, as the sixteen digits.
unfoldable pub scope_fingerprint : String → List ℕ
scope_fingerprint serialized =
    List.◌++◌ (hex_digits 8 (fnv_sum 2166136261 (codes serialized)))
      (hex_digits 8 (djb_sum 5381 (codes serialized)))

-- The text that is hashed: the identity, a NUL, the predicate.
abbrev pub hashed_text : Scope → String → String
hashed_text s serialized = scope_identity s ++ "\0" ++ serialized

pub record Plan : Type 0 where
  pub node : Node
  pub serialized : String
  pub fingerprint : List ℕ
  pub realtime_filter : Option RealtimeFilter

-- The plan that a predicate makes, when the collection has one.
unfoldable pub plan_from : Scope → CollectionKey → Option Node → Checked Plan
unfolding scope_fingerprint
plan_from s key none = refused no_filter
plan_from s key (some node) = ok (record {
  node = node;
  serialized = serialize_filter node;
  fingerprint = scope_fingerprint (hashed_text s (serialize_filter node));
  realtime_filter = realtime_filter_for key s;
})

-- `scopePlanFor`: `scopeFilterFor` and `realtimeFilterFor` normalise the scope that they are handed.
unfoldable pub scope_plan_for : (String → Bool) → CollectionKey → Option RawScope → Checked Plan
scope_plan_for parses key raw = do
  s ← normalize_scope parses raw
  again ← normalize_scope parses (some (raw_of s))
  plan_from again key (scope_filter_for key again)

-- The keys of REPLICATED_COLLECTIONS, in order, with their tables.
abbrev pub replicated_collections : List CollectionKey
replicated_collections = templates ∷ checklists ∷ responses ∷ approvals ∷ []

abbrev pub table_of : CollectionKey → String
table_of templates = "checklist_templates"
table_of checklists = "checklist_submissions"
table_of responses = "submission_responses"
table_of approvals = "submission_rejections"
table_of other_key = ""

-- A replication that was started: its table, its plan, and the identifier's fingerprint.
pub record Replication : Type 0 where
  pub table : String
  pub plan : Plan

-- The client's registry of Realtime filters, by the identifier (the table and the fingerprint), and the
-- replications that were started.
pub record SyncClient : Type 0 where
  pub filters : List (String × List ℕ × RealtimeFilter)
  pub replications : List Replication

-- `registerRealtimeFilter`, and the call of `replicate`.
unfoldable pub start_one : CollectionKey → Plan → SyncClient → SyncClient
start_one key plan client =
    let filters : List (String × List ℕ × RealtimeFilter) = elim plan.realtime_filter [
      | none ↦ client.filters
      | some f ↦ (table_of key, plan.fingerprint, f) ∷ client.filters
    ] in
    record {
      filters = filters;
      replications =
          List.◌++◌ client.replications (record { table = table_of key; plan = plan } ∷ []);
    }

-- The first loop makes every plan, and throws if one cannot be made.
unfoldable pub plans_for :
    (String → Bool) → Option RawScope → List CollectionKey → Checked (List (CollectionKey × Plan))
plans_for parses raw [] = ok []
plans_for parses raw (key ∷ keys) = do
  plan ← scope_plan_for parses key raw
  plans ← plans_for parses raw keys
  ok ((key, plan) ∷ plans)

-- The second starts them.
abbrev pub start_each : List (CollectionKey × Plan) → SyncClient → SyncClient
unfolding start_one
start_each [] client = client
start_each ((key, plan) ∷ plans) client = start_each plans (start_one key plan client)

-- `startHQReplication`: the client after it, and the error that it threw.
unfoldable pub start_hq_replication :
    (String → Bool) → Option RawScope → SyncClient → SyncClient × Checked (List CollectionKey)
start_hq_replication parses raw client =
    let plans : Checked (List (CollectionKey × Plan)) =
      normalize_scope parses raw
      >>= (λ s. plans_for parses (some (raw_of s)) replicated_collections) in
    elim plans [
      | refused e ↦ (client, refused e)
      | ok ps ↦ (start_each ps client, ok replicated_collections)
    ]
