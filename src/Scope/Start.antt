-- ===== src/Scope/Start.antt =====
-- What starting the replications of sync-rxdb/client.js guarantees: no collection is pulled whole, and
-- either all of them start or none does.
use mathlib.Core.List.{◌++◌, append-nil, append_assoc, map-append}
use yumyums_purchase_orders.Common.{
  String, ◌≡◌, refl, sym, ap, ◌∙◌, Bool, true, false, List, [], ◌∷◌, Option, none, some, arith, map,
  ◌⊎◌, inl, inr,
}
use yumyums_purchase_orders.Scope.{
  RawScope, Scope, fill, list, Checked, ok, refused, Refusal, normalize_scope, raw_of,
}
use yumyums_purchase_orders.Scope.Normal.{IsSafe, normalize_scope-IsSafe, normalize_scope-raw_of}
use yumyums_purchase_orders.Scope.Filter.{
  CollectionKey, templates, checklists, responses, approvals, other_key, Node, scope_filter_for,
  list_scope_filter_for, realtime_filter_for, serialize_filter,
}
use yumyums_purchase_orders.Scope.Reading.{Columns, holds}
use yumyums_purchase_orders.Scope.Plan.{
  Plan, plan_from, scope_plan_for, scope_fingerprint, hashed_text, replicated_collections, table_of,
  Replication, SyncClient, start_one, start_each, plans_for, start_hq_replication,
}

abbrev pub is_replicated : CollectionKey → Bool
is_replicated other_key = false
is_replicated _ = true

-- A row that has null in every column.
abbrev pub null_row : Columns
null_row column = none

-- A replicated collection is never pulled whole: for every scope there is a predicate on it, and one
-- that a row with null in every column does not satisfy.
pub scope_filter_for-bounded :
    (le : String → String → Bool) (key : CollectionKey) (s : Scope)
    → is_replicated key ≡ true
    → (n : Node) × (scope_filter_for key s ≡ some n) × (holds le null_row n ≡ false)
unfolding scope_filter_for list_scope_filter_for holds
scope_filter_for-bounded le templates (fill u c t fs) h = (_, refl, refl)
scope_filter_for-bounded le checklists (fill u c t fs) h = (_, refl, refl)
scope_filter_for-bounded le responses (fill u c t []) h = (_, refl, refl)
scope_filter_for-bounded le responses (fill u c t (f ∷ fs)) h = (_, refl, refl)
scope_filter_for-bounded le approvals (fill u c t fs) h = (_, refl, refl)
scope_filter_for-bounded le templates (list u d ids) h = (_, refl, refl)
scope_filter_for-bounded le checklists (list u d ids) h = (_, refl, refl)
scope_filter_for-bounded le responses (list u d ids) h = (_, refl, refl)
scope_filter_for-bounded le approvals (list u d ids) h = (_, refl, refl)
scope_filter_for-bounded le other_key s h = ground (arith, h)

-- The plan of a collection for a scope that was returned.
abbrev pub plan_of : Scope → Node → CollectionKey → Plan
plan_of s n key = record {
  node = n;
  serialized = serialize_filter n;
  fingerprint = scope_fingerprint (hashed_text s (serialize_filter n));
  realtime_filter = realtime_filter_for key s;
}

scope_plan_for_lem :
    (parses : String → Bool) (key : CollectionKey) (s : Scope) (n : Node)
    → IsSafe parses s
    → scope_filter_for key s ≡ some n
    → scope_plan_for parses key (some (raw_of s)) ≡ ok (plan_of s n key)
unfolding scope_plan_for plan_from
scope_plan_for_lem parses key s n safe f =
    rw (normalize_scope-raw_of parses s safe, normalize_scope-raw_of parses s safe, f) refl

-- The table of a collection and the predicate of its plan, or of the scope.
abbrev pub planned : CollectionKey × Plan → String × Option Node
planned (key, plan) = (table_of key, some plan.node)

abbrev pub bounded_by : Scope → CollectionKey → String × Option Node
bounded_by s key = (table_of key, scope_filter_for key s)

abbrev pub predicate_of : Replication → String × Option Node
predicate_of r = (r.table, some r.plan.node)

plans_for_lem :
    (parses : String → Bool) (s : Scope)
    → IsSafe parses s
    → (ps : List (CollectionKey × Plan)) × (plans_for parses
          (some (raw_of s))
          replicated_collections
        ≡ ok ps)
      × (map planned ps ≡ map (bounded_by s) replicated_collections)
unfolding plans_for
plans_for_lem parses s safe =
    let (n1, f1, _) = scope_filter_for-bounded (λ a b. true) templates s refl in
    let (n2, f2, _) = scope_filter_for-bounded (λ a b. true) checklists s refl in
    let (n3, f3, _) = scope_filter_for-bounded (λ a b. true) responses s refl in
    let (n4, f4, _) = scope_filter_for-bounded (λ a b. true) approvals s refl in
    (
      (templates, plan_of s n1 templates)
          ∷ (checklists, plan_of s n2 checklists)
          ∷ (responses, plan_of s n3 responses)
          ∷ (approvals, plan_of s n4 approvals)
          ∷ [],
      rw
          (
            scope_plan_for_lem parses templates s n1 safe f1,
            scope_plan_for_lem parses checklists s n2 safe f2,
            scope_plan_for_lem parses responses s n3 safe f3,
            scope_plan_for_lem parses approvals s n4 safe f4,
          )
          refl,
      rw (f1, f2, f3, f4) refl,
    )

-- What the replications are started with: their tables and predicates.
abbrev pub predicates : List Replication → List (String × Option Node)
predicates rs = map predicate_of rs

start_each-predicates :
    (ps : List (CollectionKey × Plan)) (client : SyncClient)
    → predicates (start_each ps client).replications
      ≡ predicates client.replications ++ map planned ps
unfolding start_one
start_each-predicates [] client = sym (append-nil (predicates client.replications))
start_each-predicates ((key, plan) ∷ ps) client =
    start_each-predicates ps (start_one key plan client)
    ∙ ap (λ r. r ++ map planned ps)
        (map-append predicate_of client.replications
          (record { table = table_of key; plan = plan } ∷ []))
    ∙ append_assoc (predicates client.replications) _ _

Checked-cases :
    {A : Type 0} (c : Checked A) → ((a : A) × (c ≡ ok a)) ⊎ ((e : Refusal) × (c ≡ refused e))
Checked-cases (ok a) = inl (a, refl)
Checked-cases (refused e) = inr (e, refl)

-- All or nothing: a scope that `normalizeScope` refuses starts no replication, registers no filter
-- and throws that error; any other starts one replication for each of the four tables, in their
-- order, each with the predicate that the scope puts on its collection.
pub start_hq_replication_lem :
    (parses : String → Bool) (raw : Option RawScope) (client : SyncClient)
    → let started = start_hq_replication parses raw client in
      ((e : Refusal) × (normalize_scope parses raw ≡ refused e) × (started ≡ (client, refused e)))
      ⊎ ((s : Scope) × (normalize_scope parses raw ≡ ok s)
          × (started.1 ≡ ok replicated_collections)
          × (predicates started.0.replications
              ≡ predicates client.replications ++ map (bounded_by s) replicated_collections))
unfolding start_hq_replication
start_hq_replication_lem parses raw client = elim (Checked-cases (normalize_scope parses raw)) [
  | inr (e, h) ↦ inl (e, h, rw (h, start_hq_replication) refl)
  | inl (s, h) ↦
      let (ps, made, nodes) = plans_for_lem parses s (normalize_scope-IsSafe parses raw s h) in
      inr (
        s,
        h,
        rw (h, made, start_hq_replication) refl,
        rw (h, made, start_hq_replication)
            (start_each-predicates ps client ∙ ap (λ r. predicates client.replications ++ r) nodes),
      )
]
