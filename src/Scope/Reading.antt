-- ===== src/Scope/Reading.antt =====
-- What the predicates of a scope mean. A row gives each column a value or null; the order of a
-- column's values is PostgREST's, a parameter.
use Prim.Native.Char.{Char, code}
use Prim.Native.String.{String, ◌++◌}
use mathlib.Core.List
use text.Mathlib.TextLemmas.{nil-append, cons-append, append_assoc}
use yumyums_purchase_orders.Common.{
  ◌≡◌, refl, Bool, true, false, ◌&&◌, ◌||◌, List, [], ◌∷◌, Option, none, some, ◌==◌, arith,
  includes, if◌then◌else◌, text_eq, Bool-cases, inl, inr,
}
use yumyums_purchase_orders.Scope.{Scope, fill, list}
use yumyums_purchase_orders.Scope.Filter.{
  CollectionKey, templates, checklists, responses, approvals, other_key, Node, Nodes, eq_node,
  gte_node, is_null, in_node, and_node, or_node, stop, clause, RealtimeFilter, eq_filter,
  gte_filter, in_filter, scope_filter_for, realtime_filter_for, list_scope_filter_for, is_special,
  escape, quote_value, quote, backslash, join_clauses, QueryCall, eq_call, gte_call, is_call,
  in_call, or_call, apply_scope, apply_each,
}

abbrev pub Columns : Type 0
Columns = String → Option String

abbrev pub is_value : Option String → String → Bool
is_value none v = false
is_value (some t) v = text_eq t v

abbrev pub is_absent : Option String → Bool
is_absent none = true
is_absent (some t) = false

abbrev pub is_in : Option String → List String → Bool
is_in none vs = false
is_in (some t) vs = includes vs t

module _ (le : String → String → Bool) (row : Columns) where
  abbrev pub is_from : Option String → String → Bool
  is_from none v = false
  is_from (some t) v = le v t

  unfoldable mutual
    pub holds : Node → Bool
    holds (eq_node column v) = is_value (row column) v
    holds (gte_node column v) = is_from (row column) v
    holds (is_null column) = is_absent (row column)
    holds (in_node column vs) = is_in (row column) vs
    holds (and_node ns) = all_hold ns
    holds (or_node ns) = any_holds ns

    pub all_hold : Nodes → Bool
    all_hold stop = true
    all_hold (clause n ns) = holds n && all_hold ns

    pub any_holds : Nodes → Bool
    any_holds stop = false
    any_holds (clause n ns) = holds n || any_holds ns

  -- Whether Realtime sends a change of the row.
  abbrev pub admits : RealtimeFilter → Bool
  admits (eq_filter column v) = is_value (row column) v
  admits (gte_filter column v) = is_from (row column) v
  admits (in_filter column vs) = is_in (row column) vs

  -- Realtime announces a change of every row that the pull would fetch: where a collection has
  -- a filter on its channel, a row that satisfies the scope's predicate passes it.
  pub realtime_filter_for-covers :
      (key : CollectionKey) (s : Scope) (n : Node) (f : RealtimeFilter)
      → scope_filter_for key s ≡ some n
      → realtime_filter_for key s ≡ some f
      → holds n ≡ true
      → admits f ≡ true
  unfolding scope_filter_for list_scope_filter_for realtime_filter_for holds
  realtime_filter_for-covers templates (list u since ids) n f p q h = ground (arith, p, q, h)
  realtime_filter_for-covers checklists (list u since ids) n f p q h = ground (arith, p, q, h)
  realtime_filter_for-covers approvals (list u since ids) n f p q h = ground (arith, p, q, h)
  realtime_filter_for-covers templates (fill u c t fs) n f p q h = ground (arith, p, q, h)
  realtime_filter_for-covers checklists (fill u c t fs) n f p q h = ground (arith, p, q, h)
  realtime_filter_for-covers approvals (fill u c t fs) n f p q h = ground (arith, p, q, h)
  realtime_filter_for-covers responses s n f p q h = ground (arith, q)
  realtime_filter_for-covers other_key s n f p q h = ground (arith, q)

  module _ (reads : String → Bool) where
    -- A call on the query builder, with what the text of an `or` is read as.
    abbrev pub passes : QueryCall → Bool
    passes (eq_call column v) = is_value (row column) v
    passes (gte_call column v) = is_from (row column) v
    passes (is_call column) = is_absent (row column)
    passes (in_call column vs) = is_in (row column) vs
    passes (or_call text) = reads text

    abbrev pub all_pass : List QueryCall → Bool
    all_pass [] = true
    all_pass (c ∷ cs) = passes c && all_pass cs

    all_pass-append :
        (xs : List QueryCall) (c : QueryCall)
        → all_pass (List.◌++◌ xs (c ∷ [])) ≡ (all_pass xs && passes c)
    all_pass-append [] c = ground arith
    all_pass-append (x ∷ xs) c = ground (arith, all_pass-append xs c)

    -- The texts of the filter's `or` clauses are read as what they stand for.
    unfoldable mutual
      pub IsRead : Node → Type 0
      IsRead (or_node ns) = reads (join_clauses ns) ≡ any_holds ns
      IsRead (and_node ns) = AreRead ns
      IsRead (eq_node column v) = Unit
      IsRead (gte_node column v) = Unit
      IsRead (is_null column) = Unit
      IsRead (in_node column vs) = Unit

      pub AreRead : Nodes → Type 0
      AreRead stop = Unit
      AreRead (clause n ns) = IsRead n × AreRead ns

    mutual
      unfolding IsRead holds apply_scope

      apply-holds :
          (query : List QueryCall) (n : Node)
          → IsRead n
          → all_pass (apply_scope query n) ≡ (all_pass query && holds n)
      apply-holds query (eq_node column v) h = all_pass-append query (eq_call column v)
      apply-holds query (gte_node column v) h = all_pass-append query (gte_call column v)
      apply-holds query (is_null column) h = all_pass-append query (is_call column)
      apply-holds query (in_node column vs) h = all_pass-append query (in_call column vs)
      apply-holds query (or_node ns) h =
          ground (arith, h, all_pass-append query (or_call (join_clauses ns)))
      apply-holds query (and_node ns) h = apply-all_hold query ns h

      apply-all_hold :
          (query : List QueryCall) (ns : Nodes)
          → AreRead ns
          → all_pass (apply_each query ns) ≡ (all_pass query && all_hold ns)
      apply-all_hold query stop h = ground arith
      apply-all_hold query (clause n ns) (h, hs) =
          ground (arith, apply-holds query n h, apply-all_hold (apply_scope query n) ns hs)

    -- A pull fetches the rows that the predicate describes: a row passes every call that `applyScope`
    -- makes just when it passed those that were there and the node holds of it. It is supposed that
    -- PostgREST reads the text of an `or` clause as the clause.
    pub apply_scope-holds :
        (query : List QueryCall) (n : Node)
        → IsRead n
        → all_pass (apply_scope query n) ≡ (all_pass query && holds n)
    apply_scope-holds query n h = apply-holds query n h

-- PostgREST's reading of a quoted text, after the opening quote: up to the next quote that no
-- backslash stands before. The result is the text and what comes after it.
abbrev pub prepend : Char → Option (String × String) → Option (String × String)
prepend c none = none
prepend c (some (v, rest)) = some (String.◌∷◌ c v, rest)

unfoldable mutual
  pub read_body : String → Option (String × String)
  read_body String.[] = none
  read_body (String.◌∷◌ c s) =
      let plain = read_body s in
      let escaped = read_escaped s in
      if code c == 92 then escaped else if code c == 34 then some ("", s) else prepend c plain

  pub read_escaped : String → Option (String × String)
  read_escaped String.[] = none
  read_escaped (String.◌∷◌ c s) = prepend c (read_body s)

unfoldable pub read_quoted : String → Option (String × String)
unfolding read_body
read_quoted String.[] = none
read_quoted (String.◌∷◌ c s) = if code c == 34 then read_body s else none

read_body-escape :
    (v rest : String) → read_body (escape v ++ String.◌∷◌ quote rest) ≡ some (v, rest)
unfolding read_body
read_body-escape String.[] rest = rw (nil-append (String.◌∷◌ quote rest)) refl
read_body-escape (String.◌∷◌ c v) rest =
    let tail = String.◌∷◌ quote rest in
    let ih = read_body-escape v rest in
    elim (Bool-cases (is_special c)) [
      | inl y ↦
          rw
            (y, cons-append backslash (String.◌∷◌ c (escape v)) tail, cons-append c (escape v) tail)
            (ground (arith, ih, y))
      | inr n ↦ rw (n, cons-append c (escape v) tail) (ground (arith, ih, n))
    ]

-- No value can end its quotes early: whatever text `quoteValue` is given, what it writes is read back
-- as that text, and reading goes on just behind it.
pub read_quoted-quote_value :
    (v rest : String) → read_quoted (quote_value v ++ rest) ≡ some (v, rest)
unfolding read_quoted quote_value
read_quoted-quote_value v rest =
    rw
      (
        cons-append quote (escape v ++ String.◌∷◌ quote String.[]) rest,
        append_assoc (escape v) (String.◌∷◌ quote String.[]) rest,
        cons-append quote String.[] rest,
        nil-append rest,
      )
      (read_body-escape v rest)
