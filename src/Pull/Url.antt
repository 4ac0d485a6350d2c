-- ===== src/Pull/Url.antt =====
-- marketing/sync/pull-replication.js: checkpoints and the address of one bounded pull
-- (`normalizeCheckpoint`, `keysetPredicate`, `buildPullUrl`). `encodeURIComponent` and the digits of a
-- number are the language's, parameters here.
use Prim.Native.String.{String, ◌++◌}
use yumyums_purchase_orders.Common.{ℕ, Bool, true, Option, none, some, if◌then◌else◌, text_eq}

-- The keyset pair `{updated_at, id}`.
pub record Keyset : Type 0 where
  pub updated_at : String
  pub id : String

-- EPOCH_CHECKPOINT.
abbrev pub epoch_checkpoint : Keyset
epoch_checkpoint = record {
  updated_at = "1970-01-01T00:00:00+00:00";
  id = "00000000-0000-0000-0000-000000000000";
}

-- REPLICA_SELECT.
abbrev pub replica_select : String
replica_select = "id,token_hash,campaign_id,expires_at,redeemed_at,redeemed_by,updated_at,_deleted"

-- A checkpoint as it was stored: a legacy one has no id.
pub record Checkpoint : Type 0 where
  pub updated_at : Option String
  pub id : Option String

-- `t || d`.
abbrev pub or_text : Option String → String → String
or_text none d = d
or_text (some t) d = if text_eq t "" then d else t

abbrev pub is_falsy : Option String → Bool
is_falsy none = true
is_falsy (some t) = text_eq t ""

-- `normalizeCheckpoint`.
unfoldable pub normalize_checkpoint : Option Checkpoint → Keyset
normalize_checkpoint none = epoch_checkpoint
normalize_checkpoint (some c) =
    if is_falsy c.updated_at
    then epoch_checkpoint
    else record { updated_at = or_text c.updated_at ""; id = or_text c.id epoch_checkpoint.id }

-- `String(v).replace(/"/g, '')`.
abbrev pub without_quotes : String → String
without_quotes String.[] = ""
without_quotes (String.◌∷◌ c rest) =
    let others = without_quotes rest in
    if text_eq (String.◌∷◌ c "") "\"" then others else String.◌∷◌ c others

-- A keyset as it is handed back to `normalizeCheckpoint`.
abbrev pub stored : Keyset → Checkpoint
stored k = record { updated_at = some k.updated_at; id = some k.id }

module _ (encode_uri_component : String → String) (digits : ℕ → String) where
  -- `treeValue`.
  abbrev pub tree_value : String → String
  tree_value v = encode_uri_component ("\"" ++ without_quotes v ++ "\"")

  -- `keysetPredicate`.
  unfoldable pub keyset_predicate : Option Checkpoint → String
  unfolding normalize_checkpoint
  keyset_predicate checkpoint =
      let cp = normalize_checkpoint checkpoint in
      let ts = tree_value cp.updated_at in
      let id = tree_value cp.id in
      "or=(updated_at.gt." ++ ts ++ ",and(updated_at.eq." ++ ts ++ ",id.gt." ++ id ++ "))"

  -- `buildPullUrl`: the bound on the expiry is left out for a table that has none.
  unfoldable pub build_pull_url :
      String → String → String → Option Checkpoint → Option String → ℕ → String
  unfolding keyset_predicate
  build_pull_url rest_url table select checkpoint window_iso batch_size =
      rest_url
      ++ "/"
      ++ table
      ++ "?select="
      ++ encode_uri_component select
      ++ "&"
      ++ keyset_predicate checkpoint
      ++ elim window_iso [ none ↦ "" | some w ↦ "&expires_at=gt." ++ encode_uri_component w ]
      ++ "&order=updated_at.asc,id.asc"
      ++ "&limit="
      ++ digits batch_size
