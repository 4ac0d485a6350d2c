-- ===== src/Conflict/Fallback.antt =====
-- The fallback with no baseline, and the flags.
use yumyums_purchase_orders.Common.{
  String, ◌≡◌, refl, Bool, true, false, not, ◌&&◌, List, [], ◌∷◌, none, some, arith, includes,
}
use yumyums_purchase_orders.Json.{Fields, undefined, bool, get}
use yumyums_purchase_orders.Conflict.{
  mergeable_fields, Options, Clash, merge_fields, merge_field, resolve_with, default_options,
  values_equal,
}
use yumyums_purchase_orders.Conflict.Merge.{contested, clash_at}
use yumyums_purchase_orders.Conflict.Report.{clash_of, resolve_with-clash}

merge_fields-no_baseline :
    (opts : Options) (fork master : Fields) (ks : List String) (doc : Fields) (cs : List Clash)
    → (merge_fields opts none fork master ks (doc, cs)).0 ≡ doc
unfolding merge_fields merge_field
merge_fields-no_baseline opts fork master [] doc cs = refl
merge_fields-no_baseline opts fork master (k ∷ ks) doc cs = ground (
  arith,
  merge_fields-no_baseline opts fork master ks doc
      (merge_field opts none fork master k (doc, cs)).1,
)

-- With no baseline the document is master's, whole, and every field that differs, neither reserved
-- nor a provenance field, is reported with the fork's value. The equality test must find two
-- absent properties equal.
pub resolve_with-no_baseline :
    (opts : Options) (fork master : Fields)
    → opts.is_value_equal undefined undefined ≡ true
    → ((resolve_with opts none fork master).document ≡ master)
      × ((j : String)
          → includes opts.reserved j ≡ false
          → includes opts.provenance j ≡ false
          → opts.is_value_equal (get j fork) (get j master) ≡ false
          → clash_of j (resolve_with opts none fork master).clashes ≡ some (clash_at fork master j))
unfolding resolve_with
resolve_with-no_baseline opts fork master u = (
  merge_fields-no_baseline opts fork master (mergeable_fields none fork master opts.reserved) master
      [],
  λ j r p d. ground (arith, resolve_with-clash opts none fork master j u),
)

contested_flag :
    (base fork master : Fields) (k : String) (a f m : Bool)
    → get k base ≡ bool a
    → get k fork ≡ bool f
    → get k master ≡ bool m
    → contested default_options (some base) fork master k ≡ false
unfolding values_equal
contested_flag base fork master k a f m p q r = rw (p, q, r) (flags a f m)
  where
    flags :
        (a f m : Bool)
        → (not (values_equal (bool f) (bool m))
            && (not (values_equal (bool f) (bool a)) && not (values_equal (bool m) (bool a))))
          ≡ false
    flags true true true = refl
    flags true true false = refl
    flags true false true = refl
    flags true false false = refl
    flags false true true = refl
    flags false true false = refl
    flags false false true = refl
    flags false false false = refl

-- A flag, such as `_deleted`, that all three states hold never clashes when there is a baseline.
pub flag_never_clashes :
    (base fork master : Fields) (k : String) (a f m : Bool)
    → get k base ≡ bool a
    → get k fork ≡ bool f
    → get k master ≡ bool m
    → clash_of k (resolve_with default_options (some base) fork master).clashes ≡ none
flag_never_clashes base fork master k a f m p q r = ground (
  arith,
  resolve_with-clash default_options (some base) fork master k (unfold values_equal in refl),
  contested_flag base fork master k a f m p q r,
)
