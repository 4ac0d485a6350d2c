-- ===== src/Conflict/Merge.antt =====
-- What `resolveConflict` decides, field by field: the loop over the keys against a rule that looks
-- at one field alone.
use yumyums_purchase_orders.Common.{
  String, ◌≡◌, refl, sym, ◌∙◌, ap, Bool, true, false, not, ◌&&◌, ◌||◌, List, [], ◌∷◌, ◌++◌, Option,
  none, some, arith, if◌then◌else◌, text_eq, eq_iff, eq_refl, includes, inl, inr, text_cases,
}
use mathlib.Core.List.{append_assoc, append-nil}
use yumyums_purchase_orders.Json.{Fields, undefined, keys, get, put}
use yumyums_purchase_orders.Json.Laws.{get-put, get-not_own, includes-keys}
use yumyums_purchase_orders.Conflict.{
  Options, Clash, add_keys, mergeable_fields, merge_field, merge_fields, resolve_with, state_keys,
}

-- Only the fork changed the field.
abbrev pub fork_only : Options → Option Fields → Fields → Fields → String → Bool
fork_only opts none fork master k = false
fork_only opts (some base) fork master k =
    not (opts.is_value_equal (get k fork) (get k master))
    && (not (opts.is_value_equal (get k fork) (get k base))
        && opts.is_value_equal (get k master) (get k base))

-- Both sides changed the field, or there is no baseline to tell, and the two differ.
abbrev pub contested : Options → Option Fields → Fields → Fields → String → Bool
contested opts none fork master k = not (opts.is_value_equal (get k fork) (get k master))
contested opts (some base) fork master k =
    not (opts.is_value_equal (get k fork) (get k master))
    && (not (opts.is_value_equal (get k fork) (get k base))
        && not (opts.is_value_equal (get k master) (get k base)))

abbrev pub clash_at : Fields → Fields → String → Clash
clash_at fork master k = record { name = k; discarded = get k fork; winner = get k master }

-- The fields of a list that are reported, in its order.
abbrev pub clashes_of : Options → Option Fields → Fields → Fields → List String → List Clash
clashes_of opts assumed fork master [] = []
clashes_of opts assumed fork master (k ∷ ks) =
    if contested opts assumed fork master k && not (includes opts.provenance k)
    then clash_at fork master k ∷ clashes_of opts assumed fork master ks
    else clashes_of opts assumed fork master ks

includes-append_one :
    (xs : List String) (k j : String) → includes (xs ++ k ∷ []) j ≡ (includes xs j || text_eq k j)
includes-append_one [] k j = ground arith
includes-append_one (x ∷ xs) k j = ground (arith, includes-append_one xs k j)

includes-add_keys :
    (reserved ks seen : List String) (j : String)
    → includes (add_keys reserved ks seen) j
      ≡ (includes seen j || (includes ks j && not (includes reserved j)))
unfolding add_keys
includes-add_keys reserved [] seen j = ground arith
includes-add_keys reserved (k ∷ ks) seen j = ground (
  arith,
  eq_iff k j,
  includes-append_one seen k j,
  includes-add_keys reserved ks
      (if includes reserved k then seen else if includes seen k then seen else seen ++ k ∷ []) j,
)

pub includes-mergeable_fields :
    (assumed : Option Fields) (fork master : Fields) (reserved : List String) (j : String)
    → includes (mergeable_fields assumed fork master reserved) j ≡ (
        (includes (state_keys assumed) j || (includes (keys fork) j || includes (keys master) j))
        && not (includes reserved j))
unfolding mergeable_fields
includes-mergeable_fields assumed fork master reserved j = ground (
  arith,
  includes-add_keys reserved (keys master)
      (add_keys reserved (keys fork) (add_keys reserved (state_keys assumed) [])) j,
  includes-add_keys reserved (keys fork) (add_keys reserved (state_keys assumed) []) j,
  includes-add_keys reserved (state_keys assumed) [] j,
)

module _ (opts : Options) (assumed : Option Fields) (fork master : Fields) where
  merge_field-document :
      (k : String) (doc : Fields) (cs : List Clash)
      → (merge_field opts assumed fork master k (doc, cs)).0
        ≡ (if fork_only opts assumed fork master k then put k (get k fork) doc else doc)
  unfolding merge_field
  merge_field-document k doc cs = ground arith

  merge_field-clashes :
      (k : String) (doc : Fields) (cs : List Clash)
      → (merge_field opts assumed fork master k (doc, cs)).1
        ≡ cs ++ clashes_of opts assumed fork master (k ∷ [])
  unfolding merge_field
  merge_field-clashes k doc cs = ground (arith, append-nil cs)

  -- The loop over the fields: a field is rewritten just when it is in the list and only the fork
  -- changed it, and each reported field adds one entry.
  merge_fields-document :
      (ks : List String) (j : String) (doc : Fields) (cs : List Clash)
      → get j (merge_fields opts assumed fork master ks (doc, cs)).0
        ≡ (if includes ks j && fork_only opts assumed fork master j then get j fork else get j doc)
  unfolding merge_fields
  merge_fields-document [] j doc cs = refl
  merge_fields-document (k ∷ ks) j doc cs =
      let (doc', cs') = merge_field opts assumed fork master k (doc, cs) in
      merge_fields-document ks j doc' cs'
      ∙ rw (merge_field-document k doc cs) (elim (text_cases k j) [
        | inl e ↦ rw e (ground (arith, get-put j j (get j fork) doc, eq_refl j))
        | inr e ↦ ground (arith, get-put j k (get k fork) doc)
      ])

  pub merge_fields-clashes :
      (ks : List String) (doc : Fields) (cs : List Clash)
      → (merge_fields opts assumed fork master ks (doc, cs)).1
        ≡ cs ++ clashes_of opts assumed fork master ks
  unfolding merge_fields
  merge_fields-clashes [] doc cs = sym (append-nil cs)
  merge_fields-clashes (k ∷ ks) doc cs =
      let (doc', cs') = merge_field opts assumed fork master k (doc, cs) in
      merge_fields-clashes ks doc' cs'
      ∙ rw (merge_field-clashes k doc cs, append_assoc) (ap (cs ++◌) (ground arith))

  pub includes-own :
      (j : String)
      → includes (mergeable_fields assumed fork master opts.reserved) j ≡ false
      → includes opts.reserved j ≡ false
      → (get j fork ≡ undefined) × (get j master ≡ undefined)
  includes-own j h r = ground (
    arith,
    includes-mergeable_fields assumed fork master opts.reserved j,
    includes-keys j fork,
    includes-keys j master,
    get-not_own j fork,
    get-not_own j master,
  )

pub fork_only_own :
    (opts : Options) (assumed : Option Fields) (fork master : Fields) (j : String)
    → opts.is_value_equal undefined undefined ≡ true
    → get j fork ≡ undefined
    → get j master ≡ undefined
    → (fork_only opts assumed fork master j ≡ false)
      × (contested opts assumed fork master j ≡ false)
fork_only_own opts none fork master j u f m = rw (f, m) (ground arith)
fork_only_own opts (some base) fork master j u f m = rw (f, m) (ground arith)

-- Every field that is not reserved ends at the fork's value if the fork alone changed it, and at
-- master's value otherwise; a reserved field always keeps master's value. The equality test must
-- find two absent properties equal.
pub resolve_with-field :
    (opts : Options) (assumed : Option Fields) (fork master : Fields) (j : String)
    → opts.is_value_equal undefined undefined ≡ true
    → get j (resolve_with opts assumed fork master).document ≡ (
        if not (includes opts.reserved j) && fork_only opts assumed fork master j
        then get j fork
        else get j master)
unfolding resolve_with
resolve_with-field opts assumed fork master j u =
    merge_fields-document opts assumed fork master ks j master []
    ∙ ground (
      arith,
      includes-mergeable_fields assumed fork master opts.reserved j,
      fork_only_own opts assumed fork master j u,
      includes-own opts assumed fork master j,
    )
  where
    ks : List String
    ks = mergeable_fields assumed fork master opts.reserved
