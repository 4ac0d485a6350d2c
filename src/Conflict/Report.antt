-- ===== src/Conflict/Report.antt =====
-- What `resolveConflict` reports: which fields stand among the clashes, and that no edit of the
-- fork is lost without one.
use yumyums_purchase_orders.Common.{
  ℕ, ◌+◌, ◌≤◌, String, ◌≡◌, refl, ◌∙◌, true, false, not, ◌&&◌, List, [], ◌∷◌, ◌++◌, Option, none,
  some, arith, if◌then◌else◌, text_eq, eq_iff, eq_refl, includes, find, ◌⊎◌, inl, inr, text_cases,
}
use yumyums_purchase_orders.Json.{keys, Fields, undefined, get}
use yumyums_purchase_orders.Conflict.{
  state_keys, Options, Clash, add_keys, mergeable_fields, resolve_with,
}
use yumyums_purchase_orders.Conflict.Merge.{
  contested, clash_at, clashes_of, includes-mergeable_fields, merge_fields-clashes, includes-own,
  fork_only_own, resolve_with-field,
}

-- The entry of a field.
abbrev pub clash_of : String → List Clash → Option Clash
clash_of k cs = find (λ c. text_eq c.name k) cs

-- How many entries a field has.
abbrev pub entries : String → List Clash → ℕ
entries k [] = 0
entries k (c ∷ cs) = (if text_eq c.name k then 1 else 0) + entries k cs

abbrev occurrences : String → List String → ℕ
occurrences k [] = 0
occurrences k (x ∷ xs) = (if text_eq x k then 1 else 0) + occurrences k xs

module _ (opts : Options) (assumed : Option Fields) (fork master : Fields) where
  clash_of-clashes_of :
      (ks : List String) (j : String)
      → clash_of j (clashes_of opts assumed fork master ks) ≡ (
          if includes ks j
            && (contested opts assumed fork master j && not (includes opts.provenance j))
          then some (clash_at fork master j)
          else none)
  clash_of-clashes_of [] j = refl
  clash_of-clashes_of (k ∷ ks) j = elim (text_cases k j) [
    | inl e ↦ rw e (ground (arith, eq_refl j, clash_of-clashes_of ks j))
    | inr e ↦ ground (arith, clash_of-clashes_of ks j)
  ]

  entries-clashes_of :
      (ks : List String) (j : String)
      → entries j (clashes_of opts assumed fork master ks) ≤ occurrences j ks
  entries-clashes_of [] j = omega arith
  entries-clashes_of (k ∷ ks) j = ground (arith, entries-clashes_of ks j)

occurrences-absent : (xs : List String) (j : String) → includes xs j ≡ false → occurrences j xs ≡ 0
occurrences-absent [] j h = refl
occurrences-absent (x ∷ xs) j h = ground (arith, occurrences-absent xs j)

occurrences-append_one :
    (xs : List String) (k j : String)
    → occurrences j (xs ++ k ∷ []) ≡ occurrences j xs + (if text_eq k j then 1 else 0)
occurrences-append_one [] k j = ground arith
occurrences-append_one (x ∷ xs) k j = ground (arith, occurrences-append_one xs k j)

-- Adding keys to a set keeps its elements distinct.
occurrences-add_keys :
    (reserved ks seen : List String) (j : String)
    → occurrences j seen ≤ 1
    → occurrences j (add_keys reserved ks seen) ≤ 1
unfolding add_keys
occurrences-add_keys reserved [] seen j h = h
occurrences-add_keys reserved (k ∷ ks) seen j h =
    occurrences-add_keys reserved ks _ j
      (ground (arith, eq_iff k j, occurrences-append_one seen k j, occurrences-absent seen k))

module _ (opts : Options) (assumed : Option Fields) (fork master : Fields) where
  reported-eq :
      (resolve_with opts assumed fork master).clashes
      ≡ clashes_of opts assumed fork master (mergeable_fields assumed fork master opts.reserved)
  unfolding resolve_with
  reported-eq = merge_fields-clashes opts assumed fork master _ master []

  -- A field is reported just when it is neither reserved nor a provenance field and is contested,
  -- and the entry carries the two values. The equality test must find two absent properties equal.
  pub resolve_with-clash :
      (j : String)
      → opts.is_value_equal undefined undefined ≡ true
      → clash_of j (resolve_with opts assumed fork master).clashes ≡ (
          if not (includes opts.reserved j)
            && (contested opts assumed fork master j && not (includes opts.provenance j))
          then some (clash_at fork master j)
          else none)
  resolve_with-clash j u = rw reported-eq (
      clash_of-clashes_of opts assumed fork master _ j
      ∙ ground (
        arith,
        includes-mergeable_fields assumed fork master opts.reserved j,
        fork_only_own opts assumed fork master j u,
        includes-own opts assumed fork master j,
      ))

  -- No field is reported twice.
  pub resolve_with-entries :
      (j : String) → entries j (resolve_with opts assumed fork master).clashes ≤ 1
  unfolding mergeable_fields
  resolve_with-entries j =
      rw reported-eq (omega (arith, entries-clashes_of opts assumed fork master ks j, once))
    where
      ks : List String
      ks = mergeable_fields assumed fork master opts.reserved

      added :
          (more seen : List String)
          → occurrences j seen ≤ 1
          → occurrences j (add_keys opts.reserved more seen) ≤ 1
      added more seen = occurrences-add_keys opts.reserved more seen j

      from_base : List String
      from_base = add_keys opts.reserved (state_keys assumed) []

      once : occurrences j ks ≤ 1
      once = ground (
        arith,
        added (state_keys assumed) [],
        added (keys fork) from_base,
        added (keys master) (add_keys opts.reserved (keys fork) from_base),
      )

-- No edit of the fork is lost in silence: a field that the fork changed from the baseline, neither
-- reserved nor a provenance field, keeps the fork's value, or equals master's value, or stands
-- among the clashes with the value that was given up.
pub edit_survives_or_reported :
    (opts : Options) (base fork master : Fields) (j : String)
    → opts.is_value_equal undefined undefined ≡ true
    → includes opts.reserved j ≡ false
    → includes opts.provenance j ≡ false
    → opts.is_value_equal (get j fork) (get j base) ≡ false
    → (get j (resolve_with opts (some base) fork master).document ≡ get j fork)
      ⊎ ((opts.is_value_equal (get j fork) (get j master) ≡ true)
          ⊎ (clash_of j (resolve_with opts (some base) fork master).clashes
              ≡ some (clash_at fork master j)))
edit_survives_or_reported opts base fork master j u r p c = ground (
  arith,
  resolve_with-field opts (some base) fork master j u,
  resolve_with-clash opts (some base) fork master j u,
)
