-- ===== src/Scope/Identity.antt =====
-- Whose checkpoint a replication has: what `scopeFingerprint` of sync-rxdb/client.js is fed.
use Prim.Native.Char.{Char, code}
use Prim.Native.String.{String, ◌++◌}
use text.Mathlib.TextLemmas.{
  nil-append, cons-append, head-eq_of_cons-eq, tail-eq_of_cons-eq, append_cancel_left,
}
use yumyums_purchase_orders.Common.{
  ℕ, ◌≡◌, refl, sym, ap, ap₂, ◌∙◌, Bool, true, false, ◌&&◌, ◌||◌, ◌==◌, arith,
}
use yumyums_purchase_orders.Scope.{Scope, fill, list, all_codes, is_id_code, is_scope_id}
use yumyums_purchase_orders.Scope.Normal.{IsSafe}
use yumyums_purchase_orders.Scope.Plan.{scope_identity, hashed_text}

-- Texts that lack a character are split by it in one way.
pub split_unique :
    (p : ℕ → Bool) (mark : Char)
    → p (code mark) ≡ false
    → (a b : String) (r s : String) → all_codes p a ≡ true
    → all_codes p b ≡ true
    → a ++ String.◌∷◌ mark r ≡ b ++ String.◌∷◌ mark s
    → (a ≡ b) × (r ≡ s)
split_unique p mark n String.[] String.[] r s ha hb e =
    (refl, tail-eq_of_cons-eq (sym (nil-append _) ∙ e ∙ nil-append _))
split_unique p mark n String.[] (String.◌∷◌ d b) r s ha hb e =
    let same : mark ≡ d = head-eq_of_cons-eq (sym (nil-append _) ∙ e ∙ cons-append d b _) in
    ground (arith, n, hb, ap (λ c. p (code c)) same)
split_unique p mark n (String.◌∷◌ c a) String.[] r s ha hb e =
    let same : c ≡ mark = head-eq_of_cons-eq (sym (cons-append c a _) ∙ e ∙ nil-append _) in
    ground (arith, n, ha, ap (λ c. p (code c)) same)
split_unique p mark n (String.◌∷◌ c a) (String.◌∷◌ d b) r s ha hb e =
    let e' = sym (cons-append c a _) ∙ e ∙ cons-append d b _ in
    let rest =
      split_unique p mark n a b r s (ground (arith, ha)) (ground (arith, hb))
        (tail-eq_of_cons-eq e') in
    (ap₂ (λ x t. String.◌∷◌ x t) (head-eq_of_cons-eq e') rest.0, rest.1)

pub all_codes-append :
    (p : ℕ → Bool) (a b : String) → all_codes p (a ++ b) ≡ (all_codes p a && all_codes p b)
all_codes-append p String.[] b = rw (nil-append b) refl
all_codes-append p (String.◌∷◌ c a) b =
    rw (cons-append c a b) (ground (arith, all_codes-append p a b))

all_codes-weaken :
    (p q : ℕ → Bool)
    → ((c : ℕ) → p c ≡ true → q c ≡ true)
    → (a : String) → all_codes p a ≡ true
    → all_codes q a ≡ true
all_codes-weaken p q w String.[] h = refl
all_codes-weaken p q w (String.◌∷◌ c a) h = ground (arith, w (code c), all_codes-weaken p q w a, h)

-- What an identity is written in.
abbrev is_identity_code : ℕ → Bool
is_identity_code c = is_id_code c || c == 58

pub safe_codes : (a : String) → is_scope_id a ≡ true → all_codes is_id_code a ≡ true
safe_codes a h = ground (arith, h)

identity_codes : (a : String) → is_scope_id a ≡ true → all_codes is_identity_code a ≡ true
identity_codes a h =
    all_codes-weaken is_id_code is_identity_code (λ c k. ground (arith, k)) a (safe_codes a h)

scope_identity-codes :
    (parses : String → Bool) (s : Scope)
    → IsSafe parses s
    → all_codes is_identity_code (scope_identity s) ≡ true
scope_identity-codes parses (fill u c t fs) (hu, hc, ht, hf) =
    rw
      (
        all_codes-append is_identity_code "fill:" (u ++ ":" ++ c),
        all_codes-append is_identity_code u (":" ++ c),
        all_codes-append is_identity_code ":" c,
        identity_codes u hu,
        identity_codes c hc,
      )
      refl
scope_identity-codes parses (list u d ts) (hu, hd, hp, hn, ht, hl) =
    rw (all_codes-append is_identity_code "list:" u, identity_codes u hu) refl

-- A text of one character before another text.
pub single : (c : Char) (t : String) → String.◌∷◌ c String.[] ++ t ≡ String.◌∷◌ c t
single c t = cons-append c String.[] t ∙ ap (λ r. String.◌∷◌ c r) (nil-append t)

-- Whose rows a scope asks for.
pub data Owner : Type 0 where
  fill_owner : String → String → Owner
  list_owner : String → Owner

abbrev pub owner : Scope → Owner
owner (fill user checklist template fields) = fill_owner user checklist
owner (list user since templates) = list_owner user

not_fill_list : {A : Type 0} (a b : String) → "fill:" ++ a ≡ "list:" ++ b → A
not_fill_list a b e =
    let f = head-eq_of_cons-eq (sym (cons-append "f" "ill:" a) ∙ e ∙ cons-append "l" "ist:" b) in
    ground (arith, ap code f)

scope_identity-owner :
    (parses : String → Bool) (s s' : Scope)
    → IsSafe parses s
    → IsSafe parses s'
    → scope_identity s ≡ scope_identity s'
    → owner s ≡ owner s'
scope_identity-owner parses (fill u c t fs) (fill v d t' fs') (hu, hc, ht, hf) (hv, hd, ht', hf')
      e =
    let rest = append_cancel_left "fill:" (u ++ ":" ++ c) (v ++ ":" ++ d) e in
    let same =
      split_unique is_id_code ":" refl u v c d (safe_codes u hu) (safe_codes v hv)
        (ap (λ r. u ++ r) (sym (single ":" c)) ∙ rest ∙ ap (λ r. v ++ r) (single ":" d)) in
    ap₂ fill_owner same.0 same.1
scope_identity-owner parses (fill u c t fs) (list v d ts) h h' e = not_fill_list _ _ e
scope_identity-owner parses (list u d ts) (fill v c t fs) h h' e = not_fill_list _ _ (sym e)
scope_identity-owner parses (list u d ts) (list v d' ts') h h' e =
    ap list_owner (append_cancel_left "list:" u v e)

-- Two scopes that `normalizeScope` returned share the text that a checkpoint's fingerprint is made
-- from only when both are of the same mode and the same user, of the same checklist in a fill, and
-- their predicates are the same text.
pub hashed_text-owner :
    (parses : String → Bool) (s s' : Scope) (t t' : String)
    → IsSafe parses s
    → IsSafe parses s'
    → hashed_text s t ≡ hashed_text s' t'
    → (owner s ≡ owner s') × (t ≡ t')
hashed_text-owner parses s s' t t' h h' e =
    let same =
      split_unique is_identity_code "\0" refl (scope_identity s) (scope_identity s') t t'
        (scope_identity-codes parses s h) (scope_identity-codes parses s' h')
        (ap (λ r. scope_identity s ++ r) (sym (single "\0" t))
          ∙ e
          ∙ ap (λ r. scope_identity s' ++ r) (single "\0" t')) in
    (scope_identity-owner parses s s' h h' same.0, same.1)
