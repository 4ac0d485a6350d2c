-- ===== src/Boot/Tests.antt =====
-- A registry whose first start failed, a handle that is cancelled twice, and a cached envelope.
use yumyums_purchase_orders.Common.{
  text_eq, ℕ, String, ◌≡◌, ◌≢◌, refl, Bool, true, false, List, [], ◌∷◌, Option, none, some,
}
use yumyums_purchase_orders.Json.{Value, Fields, str, obj, arr, item, no_items, field, end, get}
use yumyums_purchase_orders.Boot.{
  Handle, Registry, new_registry, pending, running, cancelled, is_live, open_scope, opens, resolves,
  rejects, cancels, Event, happen, happens, resolve_sync_read_flag, given, absent,
}
use yumyums_purchase_orders.Boot.Single.{Inv, new_registry-Inv}
use yumyums_purchase_orders.Boot.Runs.{happens-single, happens-Inv, happen-rival}
use yumyums_purchase_orders.Scope.{fill}
use yumyums_purchase_orders.Boot.Keys.{key_of, scope_key, scope_key-owner}
use yumyums_purchase_orders.Boot.Grants.{cached_grant_slugs, expand_grant_slugs, surfaces-owner}

-- One start fails, the next succeeds, is cancelled, and the key is opened again.
abbrev events : List Event
events = opens "a" ∷ rejects 0 ∷ opens "a" ∷ resolves 1 ∷ cancels 1 ∷ opens "a" ∷ resolves 2 ∷ []

happens-single_example :
    let r = happens events new_registry in
    ((i j : ℕ) (h g : Handle)
      → r.handles i ≡ some h
      → r.handles j ≡ some g
      → is_live h.phase ≡ true
      → is_live g.phase ≡ true
      → h.key ≡ g.key
      → i ≡ j)
    × ((h : Handle) × (((open_scope "a" r).0.handles (open_scope "a" r).1 ≡ some h)
          × ((h.key ≡ "a") × (is_live h.phase ≡ true))))
unfolding happen
happens-single_example = happens-single events "a" refl

abbrev reopened : Registry
reopened = happens events new_registry

reopened-Inv : Inv reopened
unfolding happen
reopened-Inv = happens-Inv events new_registry refl new_registry-Inv

happen-rival_example :
    let after = happen (opens "a") (happen (cancels 1) reopened) in
    (after.handles 2 ≡ some (record { key = "a"; phase = running }))
    × ((after.handles 3 ≡ some (record { key = "a"; phase = pending })) × ◌≢◌ {A = ℕ} 2 3)
unfolding happen open_scope
happen-rival_example =
    happen-rival 1 2 (record { key = "a"; phase = cancelled })
      (record { key = "a"; phase = running }) reopened reopened-Inv refl refl refl refl refl

-- The flag stays on over a load without the parameter, and another value turns it off.
flag_kept :
    (resolve_sync_read_flag absent (resolve_sync_read_flag (given "on") (some none)).1).0 ≡ true
unfolding resolve_sync_read_flag
flag_kept = refl

flag_off : (resolve_sync_read_flag (given "off") (some (some "on"))).1 ≡ some none
unfolding resolve_sync_read_flag
flag_off = refl

abbrev envelope : Value
envelope = obj (
    field "uid" (str "u1")
      (field "apps" (arr (item (obj (field "slug" (str "bi") end)) no_items)) end))

abbrev parse : String → Option Value
parse raw = some envelope

abbrev any_order : String → String → Bool
any_order a b = false

surfaces-owner_example :
    (id : String) × ((some "u1" ≡ some id)
      × ((o : Fields) × ((parse "{}" ≡ some (obj o)) × (get "uid" o ≡ str id))))
unfolding cached_grant_slugs expand_grant_slugs
surfaces-owner_example = surfaces-owner parse any_order "{}" (some "u1") "bi" refl refl

abbrev b_last : String → String → Bool
b_last x y = text_eq x "b"

abbrev all_parse : String → Bool
all_parse t = true

-- One checklist, its fields in two orders.
scope_key-owner_example :
    key_of b_last (fill "u1" "c1" "t1" ("a" ∷ "b" ∷ []))
    ≡ key_of b_last (fill "u1" "c1" "t1" ("b" ∷ "a" ∷ []))
unfolding scope_key
scope_key-owner_example =
    scope_key-owner all_parse b_last (fill "u1" "c1" "t1" ("a" ∷ "b" ∷ []))
      (fill "u1" "c1" "t1" ("b" ∷ "a" ∷ [])) (refl, refl, refl, refl) (refl, refl, refl, refl) refl
