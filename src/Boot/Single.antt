-- ===== src/Boot/Single.antt =====
-- The registry of replications: one live handle for a key.
use yumyums_purchase_orders.Common.{
  ℕ, ◌+◌, ◌≤◌, String, ◌≡◌, refl, sym, ap, ◌∙◌, true, false, none, some, arith, ◌==◌, ==_iff,
  if◌then◌else◌, text_cases, inl, inr, Bool-cases, Option-cases, ◌⊎◌,
}
use yumyums_purchase_orders.Store.{lookup, write}
use yumyums_purchase_orders.Store.Keys.{lookup-write_self, lookup-write_ne}
use yumyums_purchase_orders.Boot.{
  pending, is_live, Handle, Registry, new_registry, put_handle, open_scope,
}

-- Every live handle is under its key, every key has a live handle of that key, and numbers are fresh.
pub record Inv (r : Registry) : Type 0 where
  pub live :
      (i : ℕ) (h : Handle)
      → r.handles i ≡ some h
      → is_live h.phase ≡ true
      → lookup h.key r.open_scopes ≡ some i
  pub entry :
      (k : String) (i : ℕ)
      → lookup k r.open_scopes ≡ some i
      → (h : Handle) × ((r.handles i ≡ some h) × ((h.key ≡ k) × (is_live h.phase ≡ true)))
  pub fresh : (i : ℕ) → r.next ≤ i → r.handles i ≡ none

-- What is found at a number after a handle was put at another.
pub at_put :
    (i j : ℕ) (h : Handle) (r : Registry)
    → ((j ≡ i) × ((put_handle i h r).handles j ≡ some h))
      ⊎ (((j == i) ≡ false) × ((put_handle i h r).handles j ≡ r.handles j))
at_put i j h r = elim (Bool-cases (j == i)) [
  | inl e ↦ inl ((==_iff j i).0 e, ap (λ b. if b then some h else r.handles j) e)
  | inr n ↦ inr (n, ap (λ b. if b then some h else r.handles j) n)
]

pub handle_eq : (a b : Handle) → some a ≡ some b → a ≡ b
handle_eq a b e = ap (λ o. elim o [ none ↦ a | some x ↦ x ]) e

pub number_eq : (a b : ℕ) → some a ≡ some b → a ≡ b
number_eq a b e = ap (λ o. elim o [ none ↦ a | some x ↦ x ]) e

pub none_some : {A B : Type 0} (a : A) → none ≡ some a → B
none_some a e = absurd (off (ap (λ o. elim o [ none ↦ true | some x ↦ false ]) e))
  where
    off : true ≡ false → ⊥
    off p = ground (arith, p)

pub new_registry-Inv : Inv new_registry
new_registry-Inv = record {
  live = λ i h e l. ground (arith, e);
  entry = λ k i e. ground (arith, e);
  fresh = λ i le. refl;
}

module _ (key : String) (r : Registry) (v : Inv r) (absent : lookup key r.open_scopes ≡ none) where
  abbrev made : Handle
  made = record { key = key; phase = pending }

  abbrev before : Registry
  before = record r { open_scopes = write key r.next r.open_scopes; next = r.next + 1 }

  added-live :
      (j : ℕ) (h : Handle)
      → (put_handle r.next made before).handles j ≡ some h
      → is_live h.phase ≡ true
      → lookup h.key (write key r.next r.open_scopes) ≡ some j
  added-live j h e l = elim (at_put r.next j made before) [
    | inl (same, put) ↦
        ap (λ x. lookup x.key (write key r.next r.open_scopes)) (handle_eq h made (sym e ∙ put))
        ∙ (lookup-write_self key r.next r.open_scopes ∙ ap (λ n. some n) (sym same))
    | inr (other, put) ↦
        let old = v.live j h (sym put ∙ e) l in
        elim (text_cases key h.key) [
          | inl same ↦ none_some j (sym absent ∙ (ap (λ k. lookup k r.open_scopes) same ∙ old))
          | inr d ↦ lookup-write_ne key h.key r.next r.open_scopes d ∙ old
        ]
  ]

  added-own :
      (k : String) (j : ℕ)
      → key ≡ k
      → r.next ≡ j
      → (h : Handle) × (((put_handle r.next made before).handles j ≡ some h)
          × ((h.key ≡ k) × (is_live h.phase ≡ true)))
  added-own k j same here = elim (at_put r.next j made before) [
    | inl (at, put) ↦ (made, (put, (same, refl)))
    | inr (other, put) ↦ absurd (apart other)
  ]
    where
      apart : (j == r.next) ≡ false → ⊥
      apart n = ground (arith, n, here)

  added-entry :
      (k : String) (j : ℕ)
      → lookup k (write key r.next r.open_scopes) ≡ some j
      → (h : Handle) × (((put_handle r.next made before).handles j ≡ some h)
          × ((h.key ≡ k) × (is_live h.phase ≡ true)))
  added-entry k j e = elim (text_cases key k) [
    | inl same ↦ added-own k j same (
        number_eq r.next j (
          sym (lookup-write_self key r.next r.open_scopes)
          ∙ (ap (λ x. lookup x (write key r.next r.open_scopes)) same ∙ e)))
    | inr d ↦
        let (h, (found, rest)) =
          v.entry k j (sym (lookup-write_ne key k r.next r.open_scopes d) ∙ e) in
        elim (at_put r.next j made before) [
          | inl (at, put) ↦ none_some h (sym (v.fresh j (omega (arith, at))) ∙ found)
          | inr (other, put) ↦ (h, (put ∙ found, rest))
        ]
  ]

  added-fresh : (j : ℕ) → r.next + 1 ≤ j → (put_handle r.next made before).handles j ≡ none
  added-fresh j le = elim (at_put r.next j made before) [
    | inl (at, put) ↦ absurd (above at)
    | inr (other, put) ↦ put ∙ v.fresh j (omega (arith, le))
  ]
    where
      above : j ≡ r.next → ⊥
      above at = omega (arith, le, at)

  added-Inv : Inv (put_handle r.next made before)
  added-Inv = record { live = added-live; entry = added-entry; fresh = added-fresh }

pub open_scope-Inv : (key : String) (r : Registry) → Inv r → Inv (open_scope key r).0
unfolding open_scope
open_scope-Inv key r v = elim (Option-cases (lookup key r.open_scopes)) [
  | inl none_there ↦ rw (none_there, open_scope) (added-Inv key r v none_there)
  | inr (i, e) ↦ rw (e, open_scope) v
]
