-- ===== src/Pull/Rest.antt =====
-- marketing/sync/pull-replication.js: what the pull asks of PostgREST. A request is data, with its text in the documented
-- grammar of the query string and its meaning on the rows of a table; the theorem is that
-- `buildPullUrl` writes the text of the right one.
use Prim.Native.Char.{code}
use Prim.Native.String.{◌++◌}
use text.Mathlib.TextLemmas.{append_assoc}
use yumyums_purchase_orders.Common.{
  ℕ, String, ◌≡◌, refl, sym, ap, ◌∙◌, Bool, true, not, ◌&&◌, ◌||◌, ◌==◌, List, Option, none, some,
  arith, keep, take, ltb, text_eq, text_cases, inl, inr,
}
use yumyums_purchase_orders.Pull.{Row, Config}
use yumyums_purchase_orders.Pull.Url.{
  Keyset, stored, normalize_checkpoint, without_quotes, keyset_predicate, build_pull_url,
}

-- The columns that a pull compares, and its filters on them.
pub data Column : Type 0 where
  updated_at_column id_column : Column

pub data Filter : Type 0 where
  gt eq : Column → String → Filter
  both : Filter → Filter → Filter
  either : Filter → Filter → Filter

abbrev pub column_text : Column → String
column_text updated_at_column = "updated_at"
column_text id_column = "id"

-- A request for rows of a table: its columns, its two filters, the order and the limit.
pub record Request : Type 0 where
  pub columns : String
  pub left : Filter
  pub right : Filter
  pub expires_after : Option String
  pub order : String
  pub limit : ℕ

module _ (encode_uri_component : String → String) (digits : ℕ → String) where
  -- A value is quoted and encoded.
  abbrev pub value_text : String → String
  value_text v = encode_uri_component ("\"" ++ v ++ "\"")

  abbrev pub filter_text : Filter → String
  filter_text (gt c v) = column_text c ++ ".gt." ++ value_text v
  filter_text (eq c v) = column_text c ++ ".eq." ++ value_text v
  filter_text (both f g) = "and(" ++ filter_text f ++ "," ++ filter_text g ++ ")"
  filter_text (either f g) = "or(" ++ filter_text f ++ "," ++ filter_text g ++ ")"

  -- The query string: rows of which one of the two filters holds, and that are not expired.
  abbrev pub request_text : Request → String
  request_text q =
      "?select="
      ++ encode_uri_component q.columns
      ++ "&or=("
      ++ filter_text q.left
      ++ ","
      ++ filter_text q.right
      ++ ")"
      ++ elim q.expires_after [ none ↦ "" | some w ↦ "&expires_at=gt." ++ encode_uri_component w ]
      ++ "&order="
      ++ q.order
      ++ "&limit="
      ++ digits q.limit

-- The request of a pull from a checkpoint.
abbrev pub after_keyset : Config → Option String → Keyset → ℕ → Request
after_keyset cfg window k batch = record {
  columns = cfg.select;
  left = gt updated_at_column k.updated_at;
  right = both (eq updated_at_column k.updated_at) (gt id_column k.id);
  expires_after = window;
  order = "updated_at.asc,id.asc";
  limit = batch;
}

-- The address of a request.
abbrev pub request_url : (String → String) → (ℕ → String) → Config → Request → String
request_url encode_uri_component digits cfg q =
    cfg.rest_url ++ "/" ++ cfg.table ++ request_text encode_uri_component digits q

module _ (instant uuid_value : String → ℕ) where
  abbrev pub number : Column → String → ℕ
  number updated_at_column v = instant v
  number id_column v = uuid_value v

  abbrev pub cell : {P : Type 0} → Column → Row P → ℕ
  cell updated_at_column r = instant r.updated_at
  cell id_column r = uuid_value r.id

  abbrev pub filter_holds : {P : Type 0} → Filter → Row P → Bool
  filter_holds (gt c v) r = ltb (number c v) (cell c r)
  filter_holds (eq c v) r = number c v == cell c r
  filter_holds (both f g) r = filter_holds f r && filter_holds g r
  filter_holds (either f g) r = filter_holds f r || filter_holds g r

abbrev pub unexpired : {P : Type 0} → (String → Row P → Bool) → Option String → Row P → Bool
unexpired expires_above none r = true
unexpired expires_above (some w) r = expires_above w r

-- The rows that a request asks for, of a table.
abbrev pub selected :
    {P : Type 0}
    → (String → ℕ)
    → (String → ℕ)
    → (String → Row P → Bool)
    → (String → List (Row P) → List (Row P))
    → Request
    → List (Row P)
    → List (Row P)
selected instant uuid_value expires_above arrange q table = take q.limit (
    arrange q.order (
      keep
        (λ r.
          (filter_holds instant uuid_value q.left r || filter_holds instant uuid_value q.right r)
          && unexpired expires_above q.expires_after r)
        table))

-- A timestamp and an id that are not the empty text, and have no quote.
abbrev pub has_no_quote : String → Bool
has_no_quote String.[] = true
has_no_quote (String.◌∷◌ c s) = not (code c == 34) && has_no_quote s

abbrev pub is_written : Keyset → Bool
is_written k =
    not (text_eq k.updated_at "")
    && not (text_eq k.id "")
    && has_no_quote k.updated_at
    && has_no_quote k.id

without_quotes-unquoted : (s : String) → has_no_quote s ≡ true → without_quotes s ≡ s
without_quotes-unquoted String.[] h = refl
without_quotes-unquoted (String.◌∷◌ c s) h = elim (text_cases (String.◌∷◌ c "") "\"") [
  | inl quote ↦ ground (arith, h, ap first_code quote)
  | inr other ↦ rw other (ap (λ t. String.◌∷◌ c t) (without_quotes-unquoted s (ground (arith, h))))
]
  where
    first_code : String → ℕ
    first_code String.[] = 0
    first_code (String.◌∷◌ d t) = code d

-- Two pieces of a text are joined.
join : (a b c : String) → a ++ b ≡ c → (x : String) → a ++ (b ++ x) ≡ c ++ x
join a b c e x = sym (append_assoc a b x) ∙ ap (λ t. t ++ x) e

-- The two filters of the keyset, as `keysetPredicate` writes them and as the grammar does.
keyset_filters :
    (ts id rest : String)
    → "&"
        ++ ("or=(updated_at.gt." ++ ts ++ ",and(updated_at.eq." ++ ts ++ ",id.gt." ++ id ++ "))")
        ++ rest
      ≡ "&or=("
        ++ ("updated_at" ++ ".gt." ++ ts)
        ++ ","
        ++ ("and(" ++ ("updated_at" ++ ".eq." ++ ts) ++ "," ++ ("id" ++ ".gt." ++ id) ++ ")")
        ++ ")"
        ++ rest
keyset_filters ts id rest = simp (
  append_assoc,
  join "&" "or=(updated_at.gt." "&or=(updated_at.gt." refl,
  join "&or=(" "updated_at" "&or=(updated_at" refl,
  join "&or=(updated_at" ".gt." "&or=(updated_at.gt." refl,
  join "," "and(" ",and(" refl,
  join ",and(" "updated_at" ",and(updated_at" refl,
  join ",and(updated_at" ".eq." ",and(updated_at.eq." refl,
  join "," "id" ",id" refl,
  join ",id" ".gt." ",id.gt." refl,
  join ")" ")" "))" refl,
)

pub normalize-stored :
    (k : Keyset) → is_written k ≡ true → normalize_checkpoint (some (stored k)) ≡ k
unfolding normalize_checkpoint
normalize-stored k h = ground (arith, h)

-- `buildPullUrl` writes the text of the request for the rows after the checkpoint.
pub build_pull_url-request :
    (encode_uri_component : String → String) (digits : ℕ → String) (cfg : Config)
    (window : Option String) (k : Keyset) (batch : ℕ)
    → is_written k ≡ true
    → build_pull_url encode_uri_component digits cfg.rest_url cfg.table cfg.select
        (some (stored k))
        window
        batch
      ≡ request_url encode_uri_component digits cfg (after_keyset cfg window k batch)
unfolding build_pull_url keyset_predicate
build_pull_url-request encode_uri_component digits cfg window k batch h =
    rw
      (
        normalize-stored k h,
        without_quotes-unquoted k.updated_at (ground (arith, h)),
        without_quotes-unquoted k.id (ground (arith, h)),
        join "&order=" "updated_at.asc,id.asc" "&order=updated_at.asc,id.asc" refl,
      )
      (ap
        (λ t.
          cfg.rest_url ++ "/" ++ cfg.table ++ "?select=" ++ encode_uri_component cfg.select ++ t)
        (keyset_filters (value_text encode_uri_component digits k.updated_at)
          (value_text encode_uri_component digits k.id)
          (elim window [ none ↦ "" | some w ↦ "&expires_at=gt." ++ encode_uri_component w ]
            ++ "&order=updated_at.asc,id.asc"
            ++ "&limit="
            ++ digits batch)))
