-- ===== src/Boot/Keys.antt =====
-- sync-rxdb/bootstrap.js, `scopeKey`: which scopes share a handle of the registry. `after` is the order of `sort`.
use Prim.Native.Char.{code}
use Prim.Native.String.{String, ◌++◌}
use text.Mathlib.TextLemmas.{cons-append, head-eq_of_cons-eq, append_cancel_left}
use yumyums_purchase_orders.Common.{
  ◌≡◌, refl, sym, ap, ap₂, ◌∙◌, Bool, true, false, all, text_eq, List, [], ◌∷◌, arith,
}
use yumyums_purchase_orders.Common.Sort.{sort_by, all-sort_by}
use yumyums_purchase_orders.Scope.{Scope, fill, list, is_id_code, is_scope_id, all_codes}
use yumyums_purchase_orders.Scope.Normal.{IsSafe}
use yumyums_purchase_orders.Scope.Identity.{split_unique, safe_codes, single, all_codes-append}

-- `join('+')`.
abbrev pub join_plus : List String → String
join_plus [] = ""
join_plus (x ∷ []) = x
join_plus (x ∷ (y ∷ ys)) = x ++ "+" ++ join_plus (y ∷ ys)

abbrev pub nul_before : String → String
nul_before t = "\0" ++ t

-- `scopeKey`, of a scope that `normalizeScope` returned.
unfoldable pub scope_key : (String → String → Bool) → Scope → String
scope_key after (fill user checklist template fields) =
    "fill\0"
    ++ user
    ++ nul_before
        (checklist ++ nul_before (template ++ nul_before (join_plus (sort_by after fields))))
scope_key after (list user since templates) =
    "list\0" ++ user ++ nul_before (since ++ nul_before (join_plus (sort_by after templates)))

-- What a key tells of its scope: the fields of a fill are told one by one, in their order.
pub data KeyOf : Type 0 where
  fill_key : String → String → String → List String → KeyOf
  list_key : String → KeyOf

abbrev pub key_of : (String → String → Bool) → Scope → KeyOf
key_of after (fill user checklist template fields) =
    fill_key user checklist template (sort_by after fields)
key_of after (list user since templates) = list_key user

fill_list : {A : Type 0} (a b : String) → "fill\0" ++ a ≡ "list\0" ++ b → A
fill_list a b e =
    let f = head-eq_of_cons-eq (sym (cons-append "f" "ill\0" a) ∙ e ∙ cons-append "l" "ist\0" b) in
    ground (arith, ap code f)

-- A safe text is told from what follows its NUL.
split_nul :
    (a b r s : String)
    → is_scope_id a ≡ true
    → is_scope_id b ≡ true
    → a ++ nul_before r ≡ b ++ nul_before s
    → (a ≡ b) × (r ≡ s)
split_nul a b r s ha hb e =
    split_unique is_id_code "\0" refl a b r s (safe_codes a ha) (safe_codes b hb)
      (ap (λ t. a ++ t) (sym (single "\0" r)) ∙ e ∙ ap (λ t. b ++ t) (single "\0" s))

-- A `+` between two texts, as it is told apart from an id.
plus : (x t : String) → x ++ "+" ++ t ≡ x ++ String.◌∷◌ "+" t
plus x t = ap (λ r. x ++ r) (single "+" t)

id_not_empty : (x : String) → is_scope_id x ≡ true → text_eq x "" ≡ false
id_not_empty x h = ground (arith, h)

id_without_plus :
    {A : Type 0} → (x y t : String) → all_codes is_id_code x ≡ true → x ≡ y ++ "+" ++ t → A
id_without_plus x y t h e = ground (
  arith,
  h,
  ap (λ r. all_codes is_id_code r) e,
  all_codes-append is_id_code y ("+" ++ t),
  all_codes-append is_id_code "+" t,
)

-- The joined text tells which ids were joined, and how many.
join_plus-injective :
    (xs ys : List String)
    → all is_scope_id xs ≡ true
    → all is_scope_id ys ≡ true
    → join_plus xs ≡ join_plus ys
    → xs ≡ ys
join_plus-injective [] [] hx hy e = refl
join_plus-injective [] (y ∷ []) hx hy e =
    ground (arith, id_not_empty y (ground (arith, hy)), ap (λ t. text_eq t "") e)
join_plus-injective [] (y ∷ (z ∷ ys)) hx hy e = id_without_plus "" y _ refl e
join_plus-injective (x ∷ []) [] hx hy e =
    ground (arith, id_not_empty x (ground (arith, hx)), ap (λ t. text_eq t "") e)
join_plus-injective (x ∷ (z ∷ xs)) [] hx hy e = id_without_plus "" x _ refl (sym e)
join_plus-injective (x ∷ []) (y ∷ []) hx hy e = ap (λ t. t ∷ []) e
join_plus-injective (x ∷ []) (y ∷ (z ∷ ys)) hx hy e =
    id_without_plus x y _ (safe_codes x (ground (arith, hx))) e
join_plus-injective (x ∷ (z ∷ xs)) (y ∷ []) hx hy e =
    id_without_plus y x _ (safe_codes y (ground (arith, hy))) (sym e)
join_plus-injective (x ∷ (z ∷ xs)) (y ∷ (w ∷ ys)) hx hy e =
    let (same, rest) =
      split_unique is_id_code "+" refl x y _ _ (safe_codes x (ground (arith, hx)))
        (safe_codes y (ground (arith, hy))) (sym (plus x _) ∙ e ∙ plus y _) in
    ap₂ (λ t ts. t ∷ ts) same
      (join_plus-injective (z ∷ xs) (w ∷ ys) (ground (arith, hx)) (ground (arith, hy)) rest)

-- Two scopes that `normalizeScope` returned share a handle only when they are of the same mode and the
-- same user, and in a fill of the same checklist, the same template and the same
-- fields, one by one in sorted order.
pub scope_key-owner :
    (parses : String → Bool) (after : String → String → Bool) (s s' : Scope)
    → IsSafe parses s
    → IsSafe parses s'
    → scope_key after s ≡ scope_key after s'
    → key_of after s ≡ key_of after s'
unfolding scope_key
scope_key-owner parses after (fill u c t fs) (fill v d w gs) (hu, hc, ht, hf) (hv, hd, hw, hg) e =
    let (same_u, rest) = split_nul u v _ _ hu hv (append_cancel_left "fill\0" _ _ e) in
    let (same_c, rest') = split_nul c d _ _ hc hd rest in
    let (same_t, fields) = split_nul t w _ _ ht hw rest' in
    let same_fields =
      join_plus-injective (sort_by after fs) (sort_by after gs)
        (all-sort_by after is_scope_id fs ∙ hf) (all-sort_by after is_scope_id gs ∙ hg) fields in
    λ i. fill_key (same_u i) (same_c i) (same_t i) (same_fields i)
scope_key-owner parses after (fill u c t fs) (list v d ts) h h' e = fill_list _ _ e
scope_key-owner parses after (list u d ts) (fill v c t fs) h h' e = fill_list _ _ (sym e)
scope_key-owner parses after (list u d ts) (list v d' ts') h h' e =
    ap list_key (split_nul u v _ _ h.0 h'.0 (append_cancel_left "list\0" _ _ e)).0
