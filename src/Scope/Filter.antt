-- ===== src/Scope/Filter.antt =====
-- sync-rxdb/client.js: the predicate that a scope puts on each replicated collection
-- (`scopeFilterFor`, `listScopeFilterFor`), the Realtime filter beside it (`realtimeFilterFor`), and how
-- they are written for PostgREST (`quoteValue`, `serializeFilter`, `applyScope`).
use Prim.Native.Char.{Char, code}
use Prim.Native.String.{String, ◌++◌}
use yumyums_purchase_orders.Common.{
  Bool, true, false, List, [], ◌∷◌, Option, none, some, ◌==◌, if◌then◌else◌,
}
use mathlib.Core.List
use yumyums_purchase_orders.Scope.{Scope, fill, list}

-- The collections of REPLICATED_COLLECTIONS, and any other key.
pub data CollectionKey : Type 0 where
  templates checklists responses approvals other_key : CollectionKey

-- A node of a filter: its column, and what it asks of it.
mutual
  pub data Node : Type 0 where
    eq_node : String → String → Node
    gte_node : String → String → Node
    is_null : String → Node
    in_node : String → List String → Node
    and_node : Nodes → Node
    or_node : Nodes → Node

  pub data Nodes : Type 0 where
    stop : Nodes
    clause : Node → Nodes → Nodes

abbrev pub is_empty : List String → Bool
is_empty [] = true
is_empty (t ∷ ts) = false

-- `listScopeFilterFor`.
unfoldable pub list_scope_filter_for : CollectionKey → String → List String → Option Node
list_scope_filter_for templates since ids = some (in_node "id" ids)
list_scope_filter_for checklists since ids =
    some
      (and_node (clause (in_node "template_id" ids) (clause (gte_node "submitted_at" since) stop)))
list_scope_filter_for responses since ids = some (gte_node "answered_at" since)
list_scope_filter_for approvals since ids = some (gte_node "rejected_at" since)
list_scope_filter_for other_key since ids = none

-- The case of 'responses': the answers of the open checklist, and the drafts of its fields.
abbrev pub fill_responses : String → List String → Node
fill_responses checklist fields =
    if is_empty fields
    then eq_node "submission_id" checklist
    else or_node (
        clause (eq_node "submission_id" checklist) (
          clause
            (and_node (clause (is_null "submission_id") (clause (in_node "field_id" fields) stop)))
            stop))

-- `scopeFilterFor`, of a scope that was normalised.
unfoldable pub scope_filter_for : CollectionKey → Scope → Option Node
unfolding list_scope_filter_for
scope_filter_for key (list user since ids) = list_scope_filter_for key since ids
scope_filter_for templates (fill user checklist template fields) = some (eq_node "id" template)
scope_filter_for checklists (fill user checklist template fields) = some (eq_node "id" checklist)
scope_filter_for responses (fill user checklist template fields) =
    some (fill_responses checklist fields)
scope_filter_for approvals (fill user checklist template fields) =
    some (eq_node "submission_id" checklist)
scope_filter_for other_key (fill user checklist template fields) = none

-- A Realtime filter: one column, and one operator.
pub data RealtimeFilter : Type 0 where
  eq_filter : String → String → RealtimeFilter
  gte_filter : String → String → RealtimeFilter
  in_filter : String → List String → RealtimeFilter

-- `realtimeFilterFor`, before it is written as text.
unfoldable pub realtime_filter_for : CollectionKey → Scope → Option RealtimeFilter
realtime_filter_for responses s = none
realtime_filter_for other_key s = none
realtime_filter_for templates (list user since ids) = some (in_filter "id" ids)
realtime_filter_for checklists (list user since ids) = some (gte_filter "submitted_at" since)
realtime_filter_for approvals (list user since ids) = some (gte_filter "rejected_at" since)
realtime_filter_for templates (fill user checklist template fields) = some (eq_filter "id" template)
realtime_filter_for checklists (fill user checklist template fields) =
    some (eq_filter "id" checklist)
realtime_filter_for approvals (fill user checklist template fields) =
    some (eq_filter "submission_id" checklist)

-- `.join(',')`.
abbrev pub join_comma : List String → String
join_comma [] = ""
join_comma (t ∷ []) = t
join_comma (t ∷ (u ∷ ts)) = t ++ "," ++ join_comma (u ∷ ts)

-- The text of a Realtime filter.
abbrev pub print_realtime : RealtimeFilter → String
print_realtime (eq_filter column v) = column ++ "=eq." ++ v
print_realtime (gte_filter column v) = column ++ "=gte." ++ v
print_realtime (in_filter column vs) = column ++ "=in.(" ++ join_comma vs ++ ")"

-- The two `replace` of `quoteValue`: a backslash before each backslash and each quote.
abbrev pub is_special : Char → Bool
is_special c = if code c == 92 then true else code c == 34

abbrev pub backslash : Char
backslash = "\\"

abbrev pub quote : Char
quote = "\""

abbrev pub escape : String → String
escape String.[] = String.[]
escape (String.◌∷◌ c s) =
    let rest = escape s in
    if is_special c then String.◌∷◌ backslash (String.◌∷◌ c rest) else String.◌∷◌ c rest

unfoldable pub quote_value : String → String
quote_value v = String.◌∷◌ quote (escape v ++ String.◌∷◌ quote String.[])

abbrev pub quote_all : List String → List String
unfolding quote_value
quote_all [] = []
quote_all (v ∷ vs) = quote_value v ∷ quote_all vs

abbrev pub column_text : String → String
column_text column = "\"" ++ column ++ "\""

-- `serializeFilter`, and the `join(',')` of its clauses.
unfoldable mutual
  unfolding quote_value

  pub serialize_filter : Node → String
  serialize_filter (eq_node column v) = column_text column ++ ".eq." ++ quote_value v
  serialize_filter (gte_node column v) = column_text column ++ ".gte." ++ quote_value v
  serialize_filter (is_null column) = column_text column ++ ".is.null"
  serialize_filter (in_node column vs) =
      column_text column ++ ".in.(" ++ join_comma (quote_all vs) ++ ")"
  serialize_filter (and_node ns) = "and(" ++ join_clauses ns ++ ")"
  serialize_filter (or_node ns) = "or(" ++ join_clauses ns ++ ")"

  pub join_clauses : Nodes → String
  join_clauses stop = ""
  join_clauses (clause n stop) = serialize_filter n
  join_clauses (clause n (clause m ns)) = serialize_filter n ++ "," ++ join_clauses (clause m ns)

-- The calls that `applyScope` makes on a query builder of PostgREST, in their order.
pub data QueryCall : Type 0 where
  eq_call : String → String → QueryCall
  gte_call : String → String → QueryCall
  is_call : String → QueryCall
  in_call : String → List String → QueryCall
  or_call : String → QueryCall

-- `applyScope`: `clauses.reduce` applies the clauses one after the other.
unfoldable mutual
  pub apply_scope : List QueryCall → Node → List QueryCall
  apply_scope query (eq_node column v) = List.◌++◌ query (eq_call column v ∷ [])
  apply_scope query (gte_node column v) = List.◌++◌ query (gte_call column v ∷ [])
  apply_scope query (is_null column) = List.◌++◌ query (is_call column ∷ [])
  apply_scope query (in_node column vs) = List.◌++◌ query (in_call column vs ∷ [])
  apply_scope query (or_node ns) = List.◌++◌ query (or_call (join_clauses ns) ∷ [])
  apply_scope query (and_node ns) = apply_each query ns

  pub apply_each : List QueryCall → Nodes → List QueryCall
  apply_each query stop = query
  apply_each query (clause n ns) = apply_each (apply_scope query n) ns
