-- ===== src/Scan/Payload.antt =====
-- marketing/scanner.js, the readers of a payload: the token behind `/r/` (`extractToken`), and the offer
-- that the payload describes (`parseEmbeddedOffer`, of the JSON value that was decoded).
use Prim.Native.Char.{Char, code}
use Prim.Native.String.{◌++◌}
use text.Mathlib.TextLemmas.{nil-append, cons-append}
use yumyums_purchase_orders.Common.{
  ◌⊎◌, ℕ, String, ◌≡◌, refl, sym, ap, ◌∙◌, Bool, true, not, ◌&&◌, ◌||◌, ◌==◌, Option, none, some,
  arith, if◌then◌else◌, text_eq, eq_iff, Bool-cases, Option-cases, inl, inr,
}
use yumyums_purchase_orders.Json.{Value, str, num, obj, Fields, get}
use yumyums_purchase_orders.Scan.{Embedded}

-- `/`, `?` and `#`, which no token has; `?` and `#` end one.
abbrev pub is_stop : ℕ → Bool
is_stop c = c == 47 || c == 63 || c == 35

-- `[^/?#]+`, as far as it goes, and what is behind it.
abbrev pub run_of : String → String × String
run_of String.[] = (String.[], String.[])
run_of (String.◌∷◌ c s) =
    let rest = run_of s in
    if is_stop (code c) then (String.[], String.◌∷◌ c s) else (String.◌∷◌ c rest.0, rest.1)

-- `(?=[?#]|$)`.
abbrev pub at_end : String → Bool
at_end String.[] = true
at_end (String.◌∷◌ c s) = code c == 63 || code c == 35

-- The token that begins here: a shorter run stands before a character of the token, which the
-- lookahead refuses.
abbrev pub token_here : String → Option String
token_here s = let r = run_of s in if text_eq r.0 "" || not (at_end r.1) then none else some r.0

abbrev three : Char → Char → Char → String
three a b c = String.◌∷◌ a (String.◌∷◌ b (String.◌∷◌ c String.[]))

-- What stands behind a `/r/` at the beginning.
abbrev pub behind_r : String → Option String
behind_r (String.◌∷◌ a (String.◌∷◌ b (String.◌∷◌ c s))) =
    if text_eq (three a b c) "/r/" then some s else none
behind_r _ = none

abbrev pub match_here : Option String → Option String
match_here none = none
match_here (some s) = token_here s

-- `extractToken`: the first place where TOKEN_PATTERN matches.
unfoldable pub extract_token : String → Option String
extract_token String.[] = none
extract_token (String.◌∷◌ c s) =
    let later = extract_token s in
    elim (match_here (behind_r (String.◌∷◌ c s))) [ some t ↦ some t | none ↦ later ]

-- `parseEmbeddedOffer` of the decoded value: an object with a label that is not blank.
module _ (trim : String → String) (is_finite : ℕ → Bool) where
  abbrev pub text_of : Value → Option String
  text_of (str t) = some t
  text_of _ = none

  abbrev pub number_of : Value → Option ℕ
  number_of (num n) = if is_finite n then some n else none
  number_of _ = none

  abbrev pub labelled : Value → Fields → Option (Embedded ℕ)
  labelled (str label) o =
      if text_eq (trim label) ""
      then none
      else some (record {
        label = label;
        campaign_id = text_of (get "campaign_id" o);
        expires_at = text_of (get "expires_at" o);
        face_value = number_of (get "face_value" o);
      })
  labelled _ o = none

  unfoldable pub parse_embedded_offer : Value → Option (Embedded ℕ)
  parse_embedded_offer (obj o) = labelled (get "label" o) o
  parse_embedded_offer _ = none

-- A token: a text that is not empty and has no `/`, `?` or `#`.
abbrev pub has_no_stop : String → Bool
has_no_stop String.[] = true
has_no_stop (String.◌∷◌ c s) = not (is_stop (code c)) && has_no_stop s

abbrev pub is_token : String → Bool
is_token t = not (text_eq t "") && has_no_stop t

run_of-append : (s : String) → (run_of s).0 ++ (run_of s).1 ≡ s
run_of-append String.[] = nil-append String.[]
run_of-append (String.◌∷◌ c s) = elim (Bool-cases (is_stop (code c))) [
  | inl y ↦ rw (y) (nil-append (String.◌∷◌ c s))
  | inr n ↦
      rw (n) (cons-append c (run_of s).0 (run_of s).1 ∙ ap (λ r. String.◌∷◌ c r) (run_of-append s))
]

run_of-has_no_stop : (s : String) → has_no_stop (run_of s).0 ≡ true
run_of-has_no_stop String.[] = refl
run_of-has_no_stop (String.◌∷◌ c s) = elim (Bool-cases (is_stop (code c))) [
  | inl y ↦ rw (y) refl
  | inr n ↦ rw (n) (ground (arith, n, run_of-has_no_stop s))
]

three-append :
    (a b c : Char) (s : String) → three a b c ++ s ≡ String.◌∷◌ a (String.◌∷◌ b (String.◌∷◌ c s))
three-append a b c s =
    rw
      (
        cons-append a (String.◌∷◌ b (String.◌∷◌ c String.[])) s,
        cons-append b (String.◌∷◌ c String.[]) s,
        cons-append c String.[] s,
        nil-append s,
      )
      refl

behind_r-append : (s rest : String) → behind_r s ≡ some rest → "/r/" ++ rest ≡ s
behind_r-append String.[] rest h = ground (arith, h)
behind_r-append (String.◌∷◌ a String.[]) rest h = ground (arith, h)
behind_r-append (String.◌∷◌ a (String.◌∷◌ b String.[])) rest h = ground (arith, h)
behind_r-append (String.◌∷◌ a (String.◌∷◌ b (String.◌∷◌ c s))) rest h =
    elim (Bool-cases (text_eq (three a b c) "/r/")) [
      | inr n ↦ ground (arith, h, n)
      | inl y ↦
          let same : s ≡ rest = ground (arith, h, y) in
          ap (λ r. "/r/" ++ r) (sym same)
          ∙ ap (λ r. r ++ s) (sym ((eq_iff (three a b c) "/r/").0 y))
          ∙ three-append a b c s
    ]

-- What may follow a token: nothing, or a text that begins with `?` or with `#`.
pub data Ends : String → Type 0 where
  at_text_end : Ends String.[]
  at_mark :
      (c : Char) (s : String) → (code c ≡ code "?") ⊎ (code c ≡ code "#") → Ends (String.◌∷◌ c s)

-- A token and the place where it stands.
pub record IsFound (s t : String) : Type 0 where
  pub front : String
  pub back : String
  pub split : front ++ "/r/" ++ t ++ back ≡ s
  pub token : is_token t ≡ true
  pub ends : Ends back

at_end-Ends : (s : String) → at_end s ≡ true → Ends s
at_end-Ends String.[] h = at_text_end
at_end-Ends (String.◌∷◌ c s) h = at_mark c s (ground (arith, h))

match_here-IsFound : (s t : String) → match_here (behind_r s) ≡ some t → IsFound s t
match_here-IsFound s t h = elim (Option-cases (behind_r s)) [
  | inl e ↦ ground (arith, h, e)
  | inr (rest, e) ↦
      let here : token_here rest ≡ some t = ground (arith, h, e) in
      let same : (run_of rest).0 ≡ t = ground (arith, here) in
      record {
        front = "";
        back = (run_of rest).1;
        split =
            nil-append _
            ∙ ap (λ r. "/r/" ++ r) (ap (λ r. r ++ (run_of rest).1) (sym same) ∙ run_of-append rest)
            ∙ behind_r-append s rest e;
        token = ground (arith, here, ap has_no_stop same, run_of-has_no_stop rest);
        ends = at_end-Ends (run_of rest).1 (ground (arith, here));
      }
]

-- The token of a payload is one: it is not empty, holds no `/`, `?` or `#`, and stands in the payload
-- behind a `/r/`, before a `?`, a `#` or the end.
pub extract_token-IsFound : (s t : String) → extract_token s ≡ some t → IsFound s t
unfolding extract_token
extract_token-IsFound String.[] t h = ground (arith, h)
extract_token-IsFound (String.◌∷◌ c s) t h =
    elim (Option-cases (match_here (behind_r (String.◌∷◌ c s)))) [
      | inr (u, e) ↦ match_here-IsFound (String.◌∷◌ c s) t (e ∙ ground (arith, h, e))
      | inl e ↦
          let later = extract_token-IsFound s t (ground (arith, h, e)) in
          record {
            front = String.◌∷◌ c later.front;
            back = later.back;
            split =
                cons-append c later.front ("/r/" ++ t ++ later.back)
                ∙ ap (λ r. String.◌∷◌ c r) later.split;
            token = later.token;
            ends = later.ends;
          }
    ]
