-- ===== src/Pull.antt =====
-- marketing/sync/pull-replication.js: the checkpointed pull of the replicas (`makePullHandler`). The
-- server (PostgREST) is the function `fetch` from an address to its reply, `Date.parse` and the
-- device clock are parameters, and RxDB calls the handler with the checkpoint that it returned last.
pub mod Url
pub mod Rest
pub mod Keysets
pub mod Walk
mod Tests
use yumyums_purchase_orders.Common.{
  ℕ, zero, suc, ◌+◌, String, Bool, true, false, not, List, [], ◌∷◌, ◌++◌, Option, none, some, ◌==◌,
  if◌then◌else◌, take,
}
use yumyums_purchase_orders.Common.Int.{ℤ}
use yumyums_purchase_orders.SyncClock.{SyncClock, capture_from_response}
use yumyums_purchase_orders.Pull.Url.{
  Keyset, Checkpoint, normalize_checkpoint, build_pull_url, stored,
}

-- A row, with the columns that the checkpoint is made of, and the others.
pub record Row (P : Type 0) : Type 0 where
  pub updated_at : String
  pub id : String
  pub payload : P

abbrev pub keyset_of : {P : Type 0} → Row P → Keyset
keyset_of r = record { updated_at = r.updated_at; id = r.id }

-- The reply: its status, the header 'date', and the rows of the body.
pub record Reply (P : Type 0) : Type 0 where
  pub status : ℕ
  pub date : Option String
  pub rows : List (Row P)

-- What `makePullHandler` is configured with, but for the server and the clock. The window's bound is
-- computed at each request: `window_bound` gives what it is at the n-th.
pub record Config : Type 0 where
  pub rest_url : String
  pub table : String
  pub select : String
  pub window_bound : Option (ℕ → String)

-- What one call of the handler gives: the documents and the checkpoint (`none` where it throws),
-- the request that it recorded, and the clock.
pub record Pulled (P : Type 0) : Type 0 where
  pub outcome : Option (List (Row P) × Keyset)
  pub request : Keyset × String
  pub clock : Option SyncClock

-- The checkpoint after a batch: the keyset of its last row, or the one before.
abbrev pub next_checkpoint : {P : Type 0} → Keyset → List (Row P) → Keyset
next_checkpoint cp [] = cp
next_checkpoint cp (r ∷ rs) = next_checkpoint (keyset_of r) rs

-- `windowBound ? windowBound() : null`.
abbrev pub window_now : Config → ℕ → Option String
window_now cfg turn = elim cfg.window_bound [ none ↦ none | some bound ↦ some (bound turn) ]

module _ (encode_uri_component : String → String) (digits : ℕ → String) (parse : String → Option ℤ)
    (P : Type 0) (fetch : String → Reply P) where
  -- `pullHandler`, when the device clock reads `device_now`, at the n-th request.
  unfoldable pub pull_handler : Config → ℤ → Option SyncClock → ℕ → Option Checkpoint → ℕ → Pulled P
  unfolding normalize_checkpoint
  pull_handler cfg device_now clock turn checkpoint batch_size =
      let cp = normalize_checkpoint checkpoint in
      let url =
        build_pull_url encode_uri_component digits cfg.rest_url cfg.table cfg.select
          (some (stored cp)) (window_now cfg turn) batch_size in
      let res = fetch url in
      if not (res.status == 200)
      then record { outcome = none; request = (cp, url); clock = clock }
      else record {
        outcome = some (res.rows, next_checkpoint cp res.rows);
        request = (cp, url);
        clock = elim clock [
          | none ↦ none
          | some c ↦ some (capture_from_response parse c res.date device_now).0
        ];
      }

  -- The documents of `n` calls in a row from the request `turn` on, each from the checkpoint of the one
  -- before; a call that throws delivers none, and is made again from the same checkpoint.
  unfoldable pub pull_documents : Config → ℤ → ℕ → ℕ → Option Checkpoint → ℕ → List (Row P)
  unfolding pull_handler
  pull_documents cfg device_now batch_size turn checkpoint zero = []
  pull_documents cfg device_now batch_size turn checkpoint (suc n) =
      elim (pull_handler cfg device_now none turn checkpoint batch_size).outcome [
        | none ↦ pull_documents cfg device_now batch_size (suc turn) checkpoint n
        | some (rows, cp) ↦
            rows ++ pull_documents cfg device_now batch_size (suc turn) (some (stored cp)) n
      ]
