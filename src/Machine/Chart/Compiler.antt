-- ===== src/Machine/Chart/Compiler.antt =====
-- marketing/submit-machine.js, `buildOn` and `scanState`: how the chart's `on` maps are compiled.
use yumyums_purchase_orders.Common.{
  Bool, true, false, ◌&&◌, ◌||◌, List, [], ◌∷◌, ◌++◌, Option, none, some, map, if◌then◌else◌,
}
use yumyums_purchase_orders.Machine.{
  EventName, next_customer, resubscribed, unexpected, same_event, includes_event, Overlay, closed,
  prompt, ScanState, unexpected_event, Transition, no_op, goto,
}

-- An `on` map: the candidates of each event, in order.
abbrev pub OnMap : Type 0 → Type 0
OnMap S = List (EventName × List (Transition S))

abbrev pub candidates : {S : Type 0} → EventName → OnMap S → Option (List (Transition S))
candidates e [] = none
candidates e ((x, ts) ∷ m) = if same_event x e then some ts else candidates e m

abbrev pub is_declared : {S : Type 0} → EventName → OnMap S → Bool
is_declared e [] = false
is_declared e ((x, ts) ∷ m) = same_event x e || is_declared e m

-- The loop of `buildOn` over the ignores: `none` is the `throw` at an event that is declared as
-- both a transition and an ignore.
unfoldable pub add_ignores : {S : Type 0} → List EventName → OnMap S → Option (OnMap S)
add_ignores [] out = some out
add_ignores (e ∷ es) out =
    let rest = add_ignores es (out ++ (e, no_op ∷ []) ∷ []) in
    if is_declared e out then none else rest

unfoldable pub build_on : {S : Type 0} → OnMap S → List EventName → Option (OnMap S)
unfolding add_ignores
build_on on ignores = add_ignores ignores on

-- GATE_BYPASS.
abbrev pub gate_bypass : List EventName
gate_bypass = next_customer ∷ resubscribed ∷ unexpected ∷ []

abbrev pub overlay_closed : Overlay → Bool
overlay_closed closed = true
overlay_closed prompt = false

abbrev pub is_no_op : {S : Type 0} → Transition S → Bool
is_no_op t = elim t.target [
  | some s ↦ false
  | none ↦ elim t.actions [ a ∷ as' ↦ false | [] ↦ elim t.guard [ some g ↦ false | none ↦ true ] ]
]

-- The overlay gate on one candidate.
abbrev pub gated : Transition ScanState → Transition ScanState
gated t =
    let guarded = record t {
      guard = elim t.guard [
        | some g ↦ some (λ c e. overlay_closed c.ov && g c e)
        | none ↦ some (λ c e. overlay_closed c.ov)
      ];
    } in
    if is_no_op t then t else guarded

-- Appends the declared no-op tail to a chain whose last candidate is guarded.
abbrev pub with_tail : List (Transition ScanState) → List (Transition ScanState)
with_tail [] = []
with_tail (t ∷ []) = elim t.guard [ some g ↦ t ∷ no_op ∷ [] | none ↦ t ∷ [] ]
with_tail (t ∷ (u ∷ ts)) = t ∷ with_tail (u ∷ ts)

abbrev pub wrap_scan : OnMap ScanState → OnMap ScanState
wrap_scan [] = []
wrap_scan ((e, ts) ∷ m) =
    (e, with_tail (if includes_event gate_bypass e then ts else map gated ts)) ∷ wrap_scan m

-- `merged[UNEXPECTED] = [{ target: 'unexpectedEvent' }]`, but in `unexpectedEvent` itself.
abbrev pub merge_unexpected : ScanState → OnMap ScanState → OnMap ScanState
merge_unexpected unexpected_event m = m
merge_unexpected s m = m ++ (unexpected, goto unexpected_event ∷ []) ∷ []

unfoldable pub scan_state : ScanState → OnMap ScanState → List EventName → Option (OnMap ScanState)
unfolding build_on
scan_state name on ignores = elim (build_on on ignores) [
  | none ↦ none
  | some m ↦ some (wrap_scan (merge_unexpected name m))
]
