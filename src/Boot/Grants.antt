-- ===== src/Boot/Grants.antt =====
-- The grants that a page draws by: `cachedGrantSlugs` of sync-rxdb/bootstrap.js and `expandGrantSlugs` of
-- sync-rxdb/client.js. `parse` is `JSON.parse`, `none` where it throws; `after` is the order of `sort`.
use yumyums_purchase_orders.Common.{
  String, ◌≡◌, refl, sym, ap, ◌∙◌, Bool, true, false, not, ◌||◌, List, [], ◌∷◌, ◌++◌, Option, none,
  some, arith, if◌then◌else◌, text_eq, eq_iff, includes, all, inl, inr, Option-cases,
}
use yumyums_purchase_orders.Common.Sort.{sort_by, all-sort_by}
use yumyums_purchase_orders.Json.{
  Value, Fields, Items, undefined, null, bool, num, str, obj, arr, item, no_items, get,
}

-- `a && a.slug`, kept where it is true.
abbrev pub slug_of : Value → Value
slug_of (obj o) = get "slug" o
slug_of v = undefined

abbrev pub is_true : Value → Bool
is_true undefined = false
is_true null = false
is_true (bool b) = b
is_true (num Prim.Native.Nat.ℕ.zero) = false
is_true (str Prim.Native.String.String.[]) = false
is_true _ = true

abbrev pub slugs_of : Items → List Value
slugs_of no_items = []
slugs_of (item a rest) =
    let others = slugs_of rest in if is_true (slug_of a) then slug_of a ∷ others else others

-- `env.uid !== deviceId`, of a text.
abbrev pub is_str : String → Value → Bool
is_str t (str s) = text_eq s t
is_str t v = false

-- What the parsed envelope gives to a device's user.
abbrev pub slugs_for : String → Value → List Value
slugs_for id (obj env) =
    if is_str id (get "uid" env)
    then elim (get "apps" env) [ arr apps ↦ slugs_of apps | _ ↦ [] ]
    else []
slugs_for id v = []

-- `cachedGrantSlugs`: the text of 'hq_apps', and what `readIdentityToken` gives.
unfoldable pub cached_grant_slugs :
    (String → Option Value) → Option String → Option String → List Value
cached_grant_slugs parse none device = []
cached_grant_slugs parse (some raw) none = []
cached_grant_slugs parse (some raw) (some id) =
    if text_eq raw ""
    then []
    else if text_eq id ""
    then []
    else elim (parse raw) [ none ↦ [] | some env ↦ slugs_for id env ]

-- UMBRELLA_SLUGS, which is empty.
abbrev pub umbrella_slugs : String → List String
umbrella_slugs s = []

abbrev pub add_slug : String → List String → List String
add_slug s out = if includes out s then out else out ++ s ∷ []

abbrev pub add_slugs : List String → List String → List String
add_slugs [] out = out
add_slugs (s ∷ ss) out = add_slugs ss (add_slug s out)

-- The loop of `expandGrantSlugs`: what is no text, or an empty one, is passed over.
abbrev pub collect_slugs : List Value → List String → List String
collect_slugs [] out = out
collect_slugs (str s ∷ vs) out =
    if text_eq s ""
    then collect_slugs vs out
    else collect_slugs vs (add_slugs (umbrella_slugs s) (add_slug s out))
collect_slugs (v ∷ vs) out = collect_slugs vs out

unfoldable pub expand_grant_slugs : (String → String → Bool) → List Value → List String
expand_grant_slugs after slugs = sort_by after (collect_slugs slugs [])

-- A value stands among others.
abbrev pub has_slug : String → List Value → Bool
has_slug s [] = false
has_slug s (v ∷ vs) = is_str s v || has_slug s vs

includes-all :
    (xs : List String) (s : String) → includes xs s ≡ not (all (λ x. not (text_eq x s)) xs)
includes-all [] s = refl
includes-all (x ∷ xs) s = ground (arith, includes-all xs s)

includes-snoc_slug :
    (xs : List String) (x s : String) → includes (xs ++ x ∷ []) s ≡ (includes xs s || text_eq x s)
includes-snoc_slug [] x s = ground arith
includes-snoc_slug (y ∷ xs) x s = ground (arith, includes-snoc_slug xs x s)

includes-add_slug :
    (x : String) (out : List String) (s : String)
    → includes (add_slug x out) s ≡ (includes out s || text_eq x s)
includes-add_slug x out s = ground (arith, includes-snoc_slug out x s, eq_iff x s)

includes-collect_slugs :
    (vs : List Value) (out : List String) (s : String)
    → text_eq s "" ≡ false
    → includes (collect_slugs vs out) s ≡ (includes out s || has_slug s vs)
includes-collect_slugs [] out s n = ground arith
includes-collect_slugs (str x ∷ vs) out s n = ground (
  arith,
  n,
  eq_iff x s,
  eq_iff x "",
  eq_iff s "",
  includes-collect_slugs vs out s n,
  includes-collect_slugs vs (add_slug x out) s n,
  includes-add_slug x out s,
)
includes-collect_slugs (undefined ∷ vs) out s n = includes-collect_slugs vs out s n
includes-collect_slugs (null ∷ vs) out s n = includes-collect_slugs vs out s n
includes-collect_slugs (bool b ∷ vs) out s n = includes-collect_slugs vs out s n
includes-collect_slugs (num k ∷ vs) out s n = includes-collect_slugs vs out s n
includes-collect_slugs (obj o ∷ vs) out s n = includes-collect_slugs vs out s n
includes-collect_slugs (arr i ∷ vs) out s n = includes-collect_slugs vs out s n

-- Expanding neither adds nor loses a grant: a surface is there just when it was among the slugs.
pub includes-expand_grant_slugs :
    (after : String → String → Bool) (slugs : List Value) (s : String)
    → text_eq s "" ≡ false
    → includes (expand_grant_slugs after slugs) s ≡ has_slug s slugs
unfolding expand_grant_slugs
includes-expand_grant_slugs after slugs s n =
    includes-all (sort_by after (collect_slugs slugs [])) s
    ∙ (ap not (all-sort_by after (λ x. not (text_eq x s)) (collect_slugs slugs []))
        ∙ (sym (includes-all (collect_slugs slugs []) s) ∙ includes-collect_slugs slugs [] s n))

slugs_for-owner :
    (id s : String) (env : Value)
    → has_slug s (slugs_for id env) ≡ true
    → (o : Fields) × ((env ≡ obj o) × (get "uid" o ≡ str id))
slugs_for-owner id s (obj o) h = (o, (refl, owner (get "uid" o) (ground (arith, h))))
  where
    owner : (v : Value) → is_str id v ≡ true → v ≡ str id
    owner (str t) e = ap (λ x. str x) ((eq_iff t id).0 e)
    owner undefined e = ground (arith, e)
    owner null e = ground (arith, e)
    owner (bool b) e = ground (arith, e)
    owner (num k) e = ground (arith, e)
    owner (obj x) e = ground (arith, e)
    owner (arr x) e = ground (arith, e)
slugs_for-owner id s undefined h = ground (arith, h)
slugs_for-owner id s null h = ground (arith, h)
slugs_for-owner id s (bool b) h = ground (arith, h)
slugs_for-owner id s (num k) h = ground (arith, h)
slugs_for-owner id s (str t) h = ground (arith, h)
slugs_for-owner id s (arr x) h = ground (arith, h)

-- A surface is drawn only from the grants of the user that the device's identity names: the cache was
-- read, it holds an object, and that object's `uid` is the identity. Nobody sees a surface by the
-- grants that another user left on the device.
pub surfaces-owner :
    (parse : String → Option Value) (after : String → String → Bool) (raw : String)
    (device : Option String) (s : String)
    → text_eq s "" ≡ false
    → includes (expand_grant_slugs after (cached_grant_slugs parse (some raw) device)) s ≡ true
    → (id : String) × ((device ≡ some id)
        × ((o : Fields) × ((parse raw ≡ some (obj o)) × (get "uid" o ≡ str id))))
unfolding cached_grant_slugs
surfaces-owner parse after raw none s n h =
    ground (arith, h, includes-expand_grant_slugs after [] s n)
surfaces-owner parse after raw (some id) s n h =
    let cached =
      sym (includes-expand_grant_slugs after (cached_grant_slugs parse (some raw) (some id)) s n)
      ∙ h in
    let held : has_slug s (held_by (parse raw)) ≡ true =
      unguarded (text_eq raw "") (text_eq id "") (held_by (parse raw)) cached in
    elim (Option-cases (parse raw)) [
      | inl e ↦ absurd (nothing (sym (ap (λ o. has_slug s (held_by o)) e) ∙ held))
      | inr (env, e) ↦
          let (o, (shape, uid)) =
            slugs_for-owner id s env (sym (ap (λ x. has_slug s (held_by x)) e) ∙ held) in
          (id, (refl, (o, (e ∙ ap (λ v. some v) shape, uid))))
    ]
  where
    held_by : Option Value → List Value
    held_by o = elim o [ none ↦ [] | some env ↦ slugs_for id env ]

    nothing : false ≡ true → ⊥
    nothing e = ground (arith, e)

    unguarded :
        (a b : Bool) (vs : List Value)
        → has_slug s (if a then [] else if b then [] else vs) ≡ true
        → has_slug s vs ≡ true
    unguarded true b vs e = absurd (nothing e)
    unguarded false true vs e = absurd (nothing e)
    unguarded false false vs e = e
