-- ===== src/Scope/Normal.antt =====
-- What `normalizeScope` of sync-rxdb/client.js guarantees of the scopes that it returns.
use yumyums_purchase_orders.Common.{
  ◌≤◌, String, ◌≡◌, refl, Bool, true, false, List, [], ◌∷◌, Option, none, some, arith, all, length,
  text_eq, Bool-cases, inl, inr,
}
use mathlib.Core.Path.{subst}
use yumyums_purchase_orders.Scope.{
  is_scope_id, is_scope_date, RawScope, Scope, fill, list, Checked, ok, refused, assert_scope_id,
  assert_date_floor, texts, assert_each, some_templates, normalize_list, normalize_fill,
  normalize_scope, present, raw_of, Mode, no_mode, mode, odd_mode, ◌>>=◌,
}

-- Every id of the scope matches SCOPE_ID_RE, the date floor matches SCOPE_DATE_RE and is one that
-- `Date.parse` reads, and a list scope names a template.
abbrev pub IsSafe : (String → Bool) → Scope → Type 0
IsSafe parses (fill user checklist template fields) =
    (is_scope_id user ≡ true)
    × (is_scope_id checklist ≡ true)
    × (is_scope_id template ≡ true)
    × (all is_scope_id fields ≡ true)
IsSafe parses (list user since templates) =
    (is_scope_id user ≡ true)
    × (is_scope_date since ≡ true)
    × (parses since ≡ true)
    × (text_eq since "" ≡ false)
    × (all is_scope_id templates ≡ true)
    × (1 ≤ length templates)

-- A chain that returns has returned at each step.
both_returned :
    {Given Made : Type 0} (first : Checked Given) (next : Given → Checked Made) {made : Made}
    → (first >>= next) ≡ ok made
    → (given : Given) × (first ≡ ok given) × (next given ≡ ok made)
both_returned (refused why) next h = cc
both_returned (ok given) next h = (given, refl, h)

returned : {a b : Scope} → ok a ≡ ok b → a ≡ b
returned e = ground (arith, e)

assert_scope_id-ok :
    (label : String) (o : Option String) (v : String)
    → assert_scope_id label o ≡ ok v
    → (o ≡ some v) × (is_scope_id v ≡ true)
assert_scope_id-ok label none v h = ground (arith, h)
assert_scope_id-ok label (some t) v h = ground (arith, h)

assert_scope_id-safe :
    (label v : String) → is_scope_id v ≡ true → assert_scope_id label (some v) ≡ ok v
assert_scope_id-safe label v h = ground (arith, h)

assert_date_floor-ok :
    (parses : String → Bool) (o : Option String) (v : String)
    → assert_date_floor parses o ≡ ok v
    → (o ≡ some v) × (is_scope_date v ≡ true) × (parses v ≡ true) × (text_eq v "" ≡ false)
assert_date_floor-ok parses none v h = ground (arith, h)
assert_date_floor-ok parses (some t) v h = ground (arith, h)

assert_each-ok :
    (label : String) (ts vs : List String)
    → assert_each label ts ≡ ok vs
    → (vs ≡ ts) × (all is_scope_id vs ≡ true)
assert_each-ok label [] vs h = ground (arith, h)
assert_each-ok label (t ∷ ts) vs h =
    let (v, first, more) = both_returned (assert_scope_id label (some t)) _ h in
    let (ws, rest, done) = both_returned (assert_each label ts) _ more in
    ground (arith, done, assert_scope_id-ok label (some t) v first, assert_each-ok label ts ws rest)

assert_each-safe :
    (label : String) (ts : List String) → all is_scope_id ts ≡ true → assert_each label ts ≡ ok ts
assert_each-safe label [] h = refl
assert_each-safe label (t ∷ ts) h =
    let head : is_scope_id t ≡ true = ground (arith, h) in
    rw (assert_scope_id-safe label t head, assert_each-safe label ts (ground (arith, h))) refl

texts-present : (ts : List String) → all is_scope_id ts ≡ true → texts (present ts) ≡ ts
texts-present [] h = refl
texts-present (t ∷ ts) h = ground (arith, h, texts-present ts)

some_templates-ok : (ts vs : List String) → some_templates ts ≡ ok vs → (vs ≡ ts) × (1 ≤ length vs)
some_templates-ok [] vs h = ground (arith, h)
some_templates-ok (t ∷ ts) vs h = ground (arith, h)

some_templates-safe : (ts : List String) → 1 ≤ length ts → some_templates ts ≡ ok ts
some_templates-safe [] h = elim h [ ]
some_templates-safe (t ∷ ts) h = refl

assert_date_floor-safe :
    (parses : String → Bool) (v : String)
    → is_scope_date v ≡ true
    → parses v ≡ true
    → text_eq v "" ≡ false
    → assert_date_floor parses (some v) ≡ ok v
assert_date_floor-safe parses v d p n = ground (arith, d, p, n)

normalize_list-IsSafe :
    (parses : String → Bool) (raw : RawScope) (s : Scope)
    → normalize_list parses raw ≡ ok s
    → IsSafe parses s
unfolding normalize_list
normalize_list-IsSafe parses raw s h =
    let (user, hu, h1) = both_returned (assert_scope_id "userId" raw.user_id) _ h in
    let (since, hd, h2) = both_returned (assert_date_floor parses raw.since) _ h1 in
    let (given, hg, h3) = both_returned (some_templates (texts raw.template_ids)) _ h2 in
    let (templates, ht, h4) = both_returned (assert_each "templateIds" given) _ h3 in
    let date = assert_date_floor-ok parses raw.since since hd in
    let each = assert_each-ok "templateIds" given templates ht in
    let many = some_templates-ok (texts raw.template_ids) given hg in
    subst (IsSafe parses) (returned h4) (
      (assert_scope_id-ok "userId" raw.user_id user hu).1,
      date.1,
      date.2,
      date.3,
      each.1,
      ground (arith, each.0, many.1),
    )

normalize_fill-IsSafe :
    (parses : String → Bool) (raw : RawScope) (s : Scope)
    → normalize_fill raw ≡ ok s
    → IsSafe parses s
unfolding normalize_fill
normalize_fill-IsSafe parses raw s h =
    let (checklist, hc, h1) = both_returned (assert_scope_id "checklistId" raw.checklist_id) _ h in
    let (template, ht, h2) = both_returned (assert_scope_id "templateId" raw.template_id) _ h1 in
    let (user, hu, h3) = both_returned (assert_scope_id "userId" raw.user_id) _ h2 in
    let (fields, hf, h4) = both_returned (assert_each "fieldIds" (texts raw.field_ids)) _ h3 in
    subst (IsSafe parses) (returned h4) (
      (assert_scope_id-ok "userId" raw.user_id user hu).1,
      (assert_scope_id-ok "checklistId" raw.checklist_id checklist hc).1,
      (assert_scope_id-ok "templateId" raw.template_id template ht).1,
      (assert_each-ok "fieldIds" (texts raw.field_ids) fields hf).1,
    )

-- No scope that is returned can rewrite the predicate that it fills in: each of its ids is a text of
-- letters, digits, `_` and `-` that is not empty, its date floor has the form of a date and
-- reads as one, and a list scope names at least one template.
pub normalize_scope-IsSafe :
    (parses : String → Bool) (raw : Option RawScope) (s : Scope)
    → normalize_scope parses raw ≡ ok s
    → IsSafe parses s
unfolding normalize_scope
normalize_scope-IsSafe parses none s h = ground (arith, h)
normalize_scope-IsSafe parses (some raw) s h = by_mode raw.mode_given refl
  where
    by_mode : (m : Mode) → raw.mode_given ≡ m → IsSafe parses s
    by_mode no_mode e = normalize_fill-IsSafe parses raw s (ground (arith, h, e))
    by_mode odd_mode e = ground (arith, h, e)
    by_mode (mode m) e = elim (Bool-cases (text_eq m "list")) [
      | inl l ↦ normalize_list-IsSafe parses raw s (ground (arith, h, e, l))
      | inr l ↦ elim (Bool-cases (text_eq m "fill")) [
        | inl f ↦ normalize_fill-IsSafe parses raw s (ground (arith, h, e, l, f))
        | inr f ↦ ground (arith, h, e, l, f)
      ]
    ]

-- A scope that was returned is accepted when it is passed on: `normalizeScope` gives it back.
pub normalize_scope-raw_of :
    (parses : String → Bool) (s : Scope)
    → IsSafe parses s
    → normalize_scope parses (some (raw_of s)) ≡ ok s
unfolding normalize_scope normalize_list normalize_fill
normalize_scope-raw_of parses (fill user checklist template fields) (u, c, t, f) =
    rw
      (
        assert_scope_id-safe "checklistId" checklist c,
        assert_scope_id-safe "templateId" template t,
        assert_scope_id-safe "userId" user u,
        texts-present fields f,
        assert_each-safe "fieldIds" fields f,
      )
      refl
normalize_scope-raw_of parses (list user since templates) (u, d, p, n, t, l) =
    rw
      (
        assert_scope_id-safe "userId" user u,
        assert_date_floor-safe parses since d p n,
        texts-present templates t,
        some_templates-safe templates l,
        assert_each-safe "templateIds" templates t,
        normalize_list,
      )
      refl
