-- ===== src/Pull/Walk.antt =====
-- marketing/sync/pull-replication.js: what successive pulls from a checkpoint deliver, against a server that gives to
-- each request the rows that the request asks for, while the window's bound moves from one to the next.
use mathlib.Core.Path.{subst}
use yumyums_purchase_orders.Common.{
  ℕ, zero, suc, ◌≤◌, ◌⊎◌, String, ◌≡◌, refl, sym, ap, ◌∙◌, Bool, true, List, [], ◌∷◌, ◌++◌, Option,
  none, some, take, length, keep, all, arith, inl, inr,
}
use yumyums_purchase_orders.Common.Int.{ℤ}
use yumyums_purchase_orders.Common.Keep.{keep-none, keep-both, keep-append, append-none}
use yumyums_purchase_orders.Pull.Url.{
  Keyset, Checkpoint, normalize_checkpoint, stored, epoch_checkpoint,
}
use yumyums_purchase_orders.Pull.{
  Row, Reply, Config, keyset_of, next_checkpoint, pull_handler, pull_documents, window_now,
}
use yumyums_purchase_orders.Pull.Rest.{
  is_written, normalize-stored, build_pull_url-request, request_url, after_keyset, selected,
  unexpired,
}
use yumyums_purchase_orders.Pull.Keysets.{
  key_lt, above, is_ordered, after, above-after, after-all, Each, Each-keep, Each-batch,
  ordered-keep,
}
use yumyums_purchase_orders.Pull.Keysets.Batches.{
  batch-alive, batch-shorter, batch-ordered, batch-rest,
}

-- What holds of the keysets of the rows, from a test of them.
Each-all :
    {P : Type 0} (p : Keyset → Bool) (rows : List (Row P))
    → all (λ r. p (keyset_of r)) rows ≡ true
    → Each (λ k. p k ≡ true) rows
Each-all p [] h = tt
Each-all p (r ∷ rows) h = (ground (arith, h), Each-all p rows (ground (arith, h)))

Each-both :
    {P : Type 0} (Q R : Keyset → Type 0) (rows : List (Row P))
    → Each Q rows
    → Each R rows
    → Each (λ k. Q k × R k) rows
Each-both Q R [] q r = tt
Each-both Q R (x ∷ rows) q r = ((q.0, r.0), Each-both Q R rows q.1 r.1)

module _ (encode_uri_component : String → String) (digits : ℕ → String) (parse : String → Option ℤ)
    (P : Type 0) (fetch : String → Reply P) (cfg : Config) (device_now : ℤ) (batch : ℕ) where
  -- The server's documented answer at one checkpoint, at every turn: to the text of the request for the rows
  -- after it, the rows that the request selects.
  unfoldable pub Answers :
      (String → ℕ)
      → (String → ℕ)
      → (String → Row P → Bool)
      → (String → List (Row P) → List (Row P))
      → (ℕ → Option String)
      → List (Row P)
      → Keyset
      → Type 0
  Answers instant uuid_value expires_above arrange date table k =
      (turn : ℕ)
      → let q = after_keyset cfg (window_now cfg turn) k batch in
        fetch (request_url encode_uri_component digits cfg q) ≡ record {
          status = 200;
          date = date turn;
          rows = selected instant uuid_value expires_above arrange q table;
        }

  pull_handler-served :
      (turn : ℕ) (checkpoint : Option Checkpoint) (k : Keyset) (date : Option String)
      (rows : List (Row P))
      → is_written k ≡ true
      → normalize_checkpoint checkpoint ≡ k
      → fetch (
          request_url encode_uri_component digits cfg
            (after_keyset cfg (window_now cfg turn) k batch))
        ≡ record { status = 200; date = date; rows = rows }
      → (pull_handler encode_uri_component digits parse P fetch cfg device_now none turn checkpoint
          batch).outcome
        ≡ some (rows, next_checkpoint k rows)
  unfolding pull_handler
  pull_handler-served turn checkpoint k date rows w n h =
      rw
        (
          n,
          build_pull_url-request encode_uri_component digits cfg (window_now cfg turn) k batch w,
          h,
        )
        refl

  module _ (instant uuid_value : String → ℕ) (expires_above : String → Row P → Bool)
      (arrange : String → List (Row P) → List (Row P)) (date : ℕ → Option String)
      (table : List (Row P)) (positive : 1 ≤ batch)
      (arranges : (rows : List (Row P))
        → is_ordered instant uuid_value rows ≡ true
        → arrange "updated_at.asc,id.asc" rows ≡ rows)
      (ordered : is_ordered instant uuid_value table ≡ true) where
    -- A keyset that may be a checkpoint: it is written, and the server answers at it.
    abbrev Fetched : Keyset → Type 0
    Fetched k =
        Answers instant uuid_value expires_above arrange date table k × (is_written k ≡ true)

    -- What a request shows at a turn.
    abbrev shown_at : ℕ → Row P → Bool
    shown_at turn = unexpired expires_above (window_now cfg turn)

    abbrev batch_at : ℕ → Keyset → List (Row P)
    batch_at turn k = take batch (keep (shown_at turn) (after instant uuid_value k table))

    selected-batch :
        (turn : ℕ) (k : Keyset)
        → selected instant uuid_value expires_above arrange
            (after_keyset cfg (window_now cfg turn) k batch)
            table
          ≡ batch_at turn k
    selected-batch turn k =
        ap (λ l. take batch l)
          (ap (λ l. arrange "updated_at.asc,id.asc" l)
              (keep-both (λ r. key_lt instant uuid_value k (keyset_of r)) (shown_at turn) table)
            ∙ arranges (keep (shown_at turn) (after instant uuid_value k table)) (
                ordered-keep instant uuid_value (shown_at turn) (after instant uuid_value k table) (
                  ordered-keep instant uuid_value (λ r. key_lt instant uuid_value k (keyset_of r))
                    table ordered)))

    -- A pull of a written checkpoint that the server answers.
    pull_documents-step :
        (n turn : ℕ) (checkpoint : Option Checkpoint) (k : Keyset)
        → is_written k ≡ true
        → normalize_checkpoint checkpoint ≡ k
        → Answers instant uuid_value expires_above arrange date table k
        → pull_documents encode_uri_component digits parse P fetch cfg device_now batch turn
            checkpoint
            (suc n)
          ≡ batch_at turn k
            ++ pull_documents encode_uri_component digits parse P fetch cfg device_now batch
                (suc turn)
                (some (stored (next_checkpoint k (batch_at turn k))))
                n
    unfolding pull_documents Answers
    pull_documents-step n turn checkpoint k w c a =
        let served =
          pull_handler-served turn checkpoint k (date turn) (batch_at turn k) w c
            (rw (selected-batch turn k) at (a turn)) in
        rw (served, pull_documents) refl

    module _ (alive : Row P → Bool)
        (always : (turn : ℕ) (r : Row P) → alive r ≡ true → shown_at turn r ≡ true) where
      -- The rows that are left may be fetched in the pulls that are left, or none of them counts.
      abbrev Enough : ℕ → Keyset → Type 0
      Enough n k =
          (length (after instant uuid_value k table) ≤ n)
          ⊎ (keep alive (after instant uuid_value k table) ≡ [])

      covered :
          (turn : ℕ) (k : Keyset)
          → keep alive (batch_at turn k)
              ++ keep alive (after instant uuid_value (next_checkpoint k (batch_at turn k)) table)
            ≡ keep alive (after instant uuid_value k table)
      covered turn k =
          ap (λ l. keep alive (batch_at turn k) ++ keep alive l)
            (sym (batch-rest instant uuid_value (shown_at turn) batch k table ordered))
          ∙ batch-alive instant uuid_value (shown_at turn) alive (always turn) batch k
              (after instant uuid_value k table) (above-after instant uuid_value k table)
              (ordered-keep instant uuid_value (λ r. key_lt instant uuid_value k (keyset_of r))
                table ordered)

      none_left :
          (turn : ℕ) (k : Keyset)
          → keep alive (after instant uuid_value k table) ≡ []
          → keep alive (after instant uuid_value (next_checkpoint k (batch_at turn k)) table) ≡ []
      none_left turn k e = append-none (keep alive (batch_at turn k)) _ (covered turn k ∙ e)

      Enough-next :
          (n turn : ℕ) (k : Keyset)
          → Enough (suc n) k
          → Enough n (next_checkpoint k (batch_at turn k))
      Enough-next n turn k (inr e) = inr (none_left turn k e)
      Enough-next n turn k (inl l) =
          let rest = after instant uuid_value k table in
          elim (batch-shorter instant uuid_value (shown_at turn) batch k rest positive
            (above-after instant uuid_value k table)
            (ordered-keep instant uuid_value (λ r. key_lt instant uuid_value k (keyset_of r)) table
              ordered)) [
                | inl e ↦
                    inr (none_left turn k (keep-none (shown_at turn) alive (always turn) rest e))
                | inr f ↦ inl (
                    subst (λ r. length r ≤ n)
                      (batch-rest instant uuid_value (shown_at turn) batch k table ordered)
                      (omega (arith, f, l)))
              ]

      walk :
          (n turn : ℕ) (checkpoint : Option Checkpoint) (k : Keyset)
          → normalize_checkpoint checkpoint ≡ k
          → Fetched k
          → Each Fetched table
          → Enough n k
          → let documents =
              pull_documents encode_uri_component digits parse P fetch cfg device_now batch turn
                checkpoint n in
            (keep alive documents ≡ keep alive (after instant uuid_value k table))
            × (above instant uuid_value k documents ≡ true)
            × (is_ordered instant uuid_value documents ≡ true)
      unfolding pull_documents
      walk zero turn checkpoint k c q each (inl l) =
          (ap (λ r. keep alive r) (sym (none (after instant uuid_value k table) l)), refl, refl)
        where
          none : (rows : List (Row P)) → length rows ≤ 0 → rows ≡ []
          none [] h = refl
          none (r ∷ rows) h = ground (arith, h)
      walk zero turn checkpoint k c q each (inr e) = (sym e, refl, refl)
      walk (suc n) turn checkpoint k c q each e =
          let k' = next_checkpoint k (batch_at turn k) in
          let next =
            Each-batch Fetched batch (shown_at turn) k (after instant uuid_value k table) q
              (Each-keep Fetched (λ r. key_lt instant uuid_value k (keyset_of r)) table each) in
          let (counted, later, ordered_later) =
            walk n (suc turn) (some (stored k')) k' (normalize-stored k' next.1) next each
              (Enough-next n turn k e) in
          let first = pull_documents-step n turn checkpoint k q.1 c q.0 in
          let (past, in_order) =
            batch-ordered instant uuid_value (shown_at turn) batch k table _ ordered later
              ordered_later in
          rw first (
            keep-append alive (batch_at turn k) _
                ∙ ap (λ l. keep alive (batch_at turn k) ++ l) counted
                ∙ covered turn k,
            past,
            in_order,
          )

      -- No row is missed and none is delivered twice, while the window moves. A first pull and the ones
      -- that follow, each from the checkpoint that the one before returned and with the window's bound
      -- of its own request, deliver every row that the window shows at every request, in the order of the
      -- table; and all that they deliver is in that order, no keyset twice. As many pulls are enough as
      -- the table has rows. Rows that share a timestamp may be any number, and a batch may end among
      -- them. It is supposed that the table stays as it is, that the server gives to each request the rows that its filters, its order
      -- and its limit ask for, that the rows have distinct keysets and come after the epoch, and that
      -- their timestamps and ids are no empty texts and have no quote.
      pub pull_documents_complete :
          (n turn : ℕ)
          → Answers instant uuid_value expires_above arrange date table epoch_checkpoint
          → Each (Answers instant uuid_value expires_above arrange date table) table
          → all (λ r. is_written (keyset_of r)) table ≡ true
          → above instant uuid_value epoch_checkpoint table ≡ true
          → length table ≤ n
          → let documents =
              pull_documents encode_uri_component digits parse P fetch cfg device_now batch turn
                none n in
            (keep alive documents ≡ keep alive table)
            × (is_ordered instant uuid_value documents ≡ true)
      unfolding normalize_checkpoint
      pull_documents_complete n turn first answers written after_epoch enough =
          let whole = after-all instant uuid_value epoch_checkpoint table after_epoch in
          let (counted, past, in_order) =
            walk n turn none epoch_checkpoint refl (first, refl)
              (Each-both (Answers instant uuid_value expires_above arrange date table)
                (λ j. is_written j ≡ true) table answers (Each-all is_written table written))
              (inl (subst (λ r. length r ≤ n) (sym whole) enough)) in
          (counted ∙ ap (λ r. keep alive r) whole, in_order)
