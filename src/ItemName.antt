-- ===== src/ItemName.antt =====
-- item-name.js: which of an item's names is shown (`itemName`), which is its identity
-- (`itemIdentity`), and when the second stands below the first (`itemSubName`). `trim` and
-- `toLowerCase` are the language's, parameters here; a field that holds no string is `none`.
mod Tests
use yumyums_purchase_orders.Common.{
  String, ◌≡◌, ◌⊎◌, inl, inr, refl, Bool, true, false, not, ◌&&◌, ◌||◌, List, [], ◌∷◌, Option, none,
  some, text_eq, arith, if◌then◌else◌, all, ap,
}

-- The fields of a row that hold a name.
pub record Item : Type 0 where
  pub display_name : Option String
  pub item_display_name : Option String
  pub item_name : Option String
  pub description : Option String
  pub name : Option String

module _ (trim to_lower_case : String → String) where
  -- Not a string, or blank.
  abbrev pub is_blank : Option String → Bool
  is_blank none = true
  is_blank (some v) = text_eq (trim v) ""

  -- `firstString`.
  abbrev pub first_string : List (Option String) → String
  first_string [] = ""
  first_string (none ∷ vs) = first_string vs
  first_string (some v ∷ vs) = let rest = first_string vs in if text_eq (trim v) "" then rest else v

  -- `itemIdentity`, of an object that may be missing.
  unfoldable pub item_identity : Option Item → String
  item_identity none = ""
  item_identity (some o) = first_string (o.item_name ∷ o.description ∷ o.name ∷ [])

  -- `itemName`.
  unfoldable pub item_name : Option Item → String
  unfolding item_identity
  item_name none = ""
  item_name (some o) =
      first_string (o.display_name ∷ o.item_display_name ∷ some (item_identity (some o)) ∷ [])

  -- `itemSubName`.
  unfoldable pub item_sub_name : Option Item → String
  unfolding item_name item_identity
  item_sub_name o =
      let canonical = item_identity o in
      let shown = item_name o in
      if text_eq canonical "" || text_eq (to_lower_case canonical) (to_lower_case shown)
      then ""
      else canonical

  first_string-blank :
      (vs : List (Option String))
      → trim "" ≡ ""
      → is_blank (some (first_string vs)) ≡ all is_blank vs
  first_string-blank [] t = ap (λ x. text_eq x "") t
  first_string-blank (none ∷ vs) t = first_string-blank vs t
  first_string-blank (some v ∷ vs) t = ground (arith, first_string-blank vs t)

  -- The name that is shown is blank just when all five names of the row are absent or blank; and
  -- the line below it is either empty, or the identity, which then differs from the name above it
  -- beyond its case. It is supposed
  -- that trimming the empty text gives the empty text.
  pub item_name-shown :
      (o : Item)
      → trim "" ≡ ""
      → (is_blank (some (item_name (some o))) ≡ (
          is_blank o.display_name
          && is_blank o.item_display_name
          && is_blank o.item_name
          && is_blank o.description
          && is_blank o.name))
        × ((item_sub_name (some o) ≡ "")
            ⊎ ((item_sub_name (some o) ≡ item_identity (some o))
                × (text_eq
                      (to_lower_case (item_identity (some o)))
                      (to_lower_case (item_name (some o)))
                    ≡ false)))
  unfolding item_sub_name item_name item_identity
  item_name-shown o t = (
    ground (
      arith,
      first_string-blank (o.display_name ∷ o.item_display_name ∷ some (item_identity (some o)) ∷ [])
          t,
      first_string-blank (o.item_name ∷ o.description ∷ o.name ∷ []) t,
    ),
    ground arith,
  )
