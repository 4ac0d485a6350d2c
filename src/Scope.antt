-- ===== src/Scope.antt =====
-- sync-rxdb/client.js, the scope of a replication: what a page asks for, and its check
-- (`assertScopeId`, `assertDateFloor`, `normalizeScope`). A property of the scope that holds no string
-- is `none`; `Date.parse` is a parameter, the test whether it reads a date.
pub mod Filter
pub mod Normal
pub mod Reading
pub mod Plan
pub mod Start
pub mod Identity
mod Tests
use Prim.Native.Char.{Char, code}
use yumyums_purchase_orders.Common.{
  ℕ, zero, suc, String, Bool, true, false, not, ◌&&◌, ◌||◌, List, [], ◌∷◌, Option, none, some, ◌==◌,
  leb, if◌then◌else◌, text_eq,
}

-- The code points of a text.
abbrev pub codes : String → List ℕ
codes String.[] = []
codes (String.◌∷◌ c s) = code c ∷ codes s

abbrev pub between : ℕ → ℕ → ℕ → Bool
between lo hi c = leb lo c && leb c hi

abbrev pub is_digit : ℕ → Bool
is_digit c = between 48 57 c

-- A letter, a digit, `_` or `-`.
abbrev pub is_id_code : ℕ → Bool
is_id_code c = between 65 90 c || between 97 122 c || is_digit c || c == 95 || c == 45

abbrev pub all_codes : (ℕ → Bool) → String → Bool
all_codes p String.[] = true
all_codes p (String.◌∷◌ c s) = p (code c) && all_codes p s

-- SCOPE_ID_RE.
abbrev pub is_scope_id : String → Bool
is_scope_id t = not (text_eq t "") && all_codes is_id_code t

-- The parts of SCOPE_DATE_RE: what is left after `n` digits, or after one given character.
abbrev pub skip_digits : ℕ → List ℕ → Option (List ℕ)
skip_digits zero cs = some cs
skip_digits (suc n) [] = none
skip_digits (suc n) (c ∷ cs) = let rest = skip_digits n cs in if is_digit c then rest else none

abbrev pub skip_code : ℕ → List ℕ → Option (List ℕ)
skip_code k [] = none
skip_code k (c ∷ cs) = if c == k then some cs else none

abbrev pub and_then : Option (List ℕ) → (List ℕ → Option (List ℕ)) → Option (List ℕ)
and_then none f = none
and_then (some cs) f = f cs

-- `\d{2}:\d{2}`, and the `\d{0,n}` that a fraction goes on with.
abbrev pub skip_clock : List ℕ → Option (List ℕ)
skip_clock cs = and_then (and_then (skip_digits 2 cs) (skip_code 58)) (skip_digits 2)

abbrev pub skip_some_digits : ℕ → List ℕ → List ℕ
skip_some_digits zero cs = cs
skip_some_digits (suc n) [] = []
skip_some_digits (suc n) (c ∷ cs) =
    let rest = skip_some_digits n cs in if is_digit c then rest else c ∷ cs

-- `(\.\d{1,6})?`.
abbrev pub skip_fraction : List ℕ → Option (List ℕ)
skip_fraction [] = some []
skip_fraction (c ∷ cs) =
    if c == 46
    then and_then (skip_digits 1 cs) (λ r. some (skip_some_digits 5 r))
    else some (c ∷ cs)

-- `(Z|[+-]\d{2}:\d{2})?`, at the end.
abbrev pub is_zone : List ℕ → Bool
is_zone [] = true
is_zone (c ∷ cs) =
    if c == 90
    then elim cs [ [] ↦ true | d ∷ ds ↦ false ]
    else if c == 43 || c == 45
    then elim (skip_clock cs) [ none ↦ false | some [] ↦ true | some (d ∷ ds) ↦ false ]
    else false

-- `(T\d{2}:\d{2}:\d{2}(…)?(…)?)?`, at the end.
abbrev pub is_time : List ℕ → Bool
is_time [] = true
is_time (c ∷ cs) =
    if c == 84
    then elim (and_then (and_then (and_then (skip_clock cs) (skip_code 58)) (skip_digits 2))
        skip_fraction) [ none ↦ false | some r ↦ is_zone r ]
    else false

-- SCOPE_DATE_RE.
unfoldable pub is_scope_date : String → Bool
is_scope_date t =
    elim (and_then
      (and_then (and_then (and_then (skip_digits 4 (codes t)) (skip_code 45)) (skip_digits 2))
        (skip_code 45))
      (skip_digits 2)) [ none ↦ false | some r ↦ is_time r ]

-- `scope.mode`: absent, or given; a value that is no string is no known mode.
pub data Mode : Type 0 where
  no_mode : Mode
  mode : String → Mode
  odd_mode : Mode

-- The scope as the page passes it.
pub record RawScope : Type 0 where
  pub mode_given : Mode
  pub user_id : Option String
  pub checklist_id : Option String
  pub template_id : Option String
  pub since : Option String
  pub template_ids : List (Option String)
  pub field_ids : List (Option String)

-- The scope that `normalizeScope` returns.
pub data Scope : Type 0 where
  fill : String → String → String → List String → Scope
  list : String → String → List String → Scope

-- The errors that it throws.
pub data Refusal : Type 0 where
  no_scope unknown_mode no_date_floor no_templates no_filter : Refusal
  missing_id : String → Refusal
  unsafe_id : String → Refusal

pub data Checked (A : Type 0) : Type 0 where
  refused : Refusal → Checked A
  ok : A → Checked A

-- The first throw ends a check.
infixl 5 ◌>>=◌
abbrev pub ◌>>=◌ : {Given Made : Type 0} → Checked Given → (Given → Checked Made) → Checked Made
refused why >>= next = refused why
ok given >>= next = next given

-- `assertScopeId`.
abbrev pub assert_scope_id : String → Option String → Checked String
assert_scope_id label none = refused (missing_id label)
assert_scope_id label (some v) =
    if text_eq v ""
    then refused (missing_id label)
    else if is_scope_id v
    then ok v
    else refused (unsafe_id label)

-- `assertDateFloor`, with the test whether `Date.parse` reads a text.
abbrev pub assert_date_floor : (String → Bool) → Option String → Checked String
assert_date_floor parses none = refused no_date_floor
assert_date_floor parses (some v) =
    if text_eq v "" || not (is_scope_date v) || not (parses v) then refused no_date_floor else ok v

-- `.filter((t) => typeof t === 'string' && t !== '')`.
abbrev pub texts : List (Option String) → List String
texts [] = []
texts (none ∷ ts) = texts ts
texts (some t ∷ ts) = let rest = texts ts in if text_eq t "" then rest else t ∷ rest

-- `forEach` of `assertScopeId`; the index in the label is left out.
abbrev pub assert_each : String → List String → Checked (List String)
assert_each label [] = ok []
assert_each label (t ∷ ts) = do
  v ← assert_scope_id label (some t)
  vs ← assert_each label ts
  ok (v ∷ vs)

abbrev pub some_templates : List String → Checked (List String)
some_templates [] = refused no_templates
some_templates (t ∷ ts) = ok (t ∷ ts)

-- The two halves of `normalizeScope`.
unfoldable pub normalize_list : (String → Bool) → RawScope → Checked Scope
normalize_list parses s = do
  user ← assert_scope_id "userId" s.user_id
  since ← assert_date_floor parses s.since
  given ← some_templates (texts s.template_ids)
  templates ← assert_each "templateIds" given
  ok (list user since templates)

unfoldable pub normalize_fill : RawScope → Checked Scope
normalize_fill s = do
  checklist ← assert_scope_id "checklistId" s.checklist_id
  template ← assert_scope_id "templateId" s.template_id
  user ← assert_scope_id "userId" s.user_id
  fields ← assert_each "fieldIds" (texts s.field_ids)
  ok (fill user checklist template fields)

-- `normalizeScope`, of a scope that may be missing.
unfoldable pub normalize_scope : (String → Bool) → Option RawScope → Checked Scope
unfolding normalize_list normalize_fill
normalize_scope parses none = refused no_scope
normalize_scope parses (some s) = elim s.mode_given [
  | no_mode ↦ normalize_fill s
  | odd_mode ↦ refused unknown_mode
  | mode m ↦
      if text_eq m "list"
      then normalize_list parses s
      else if text_eq m "fill"
      then normalize_fill s
      else refused unknown_mode
]

-- A scope that was returned, as it is passed on to `normalizeScope` again.
abbrev pub present : List String → List (Option String)
present [] = []
present (t ∷ ts) = some t ∷ present ts

abbrev pub raw_of : Scope → RawScope
raw_of (fill user checklist template fields) = record {
  mode_given = mode "fill";
  user_id = some user;
  checklist_id = some checklist;
  template_id = some template;
  since = none;
  template_ids = [];
  field_ids = present fields;
}
raw_of (list user since templates) = record {
  mode_given = mode "list";
  user_id = some user;
  checklist_id = none;
  template_id = none;
  since = some since;
  template_ids = present templates;
  field_ids = [];
}
