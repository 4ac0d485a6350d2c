-- ===== src/Pull/Keysets.antt =====
-- marketing/sync/pull-replication.js: the order of the keysets, and the rows after one. PostgreSQL's reading of a timestamp (its instant) and of a uuid (its
-- value) are parameters.
pub mod Batches
use mathlib.Core.Path.{subst}
use yumyums_purchase_orders.Common.{
  ℕ, zero, suc, ◌+◌, ◌≤◌, ◌⊎◌, String, ◌≡◌, refl, sym, ap, Bool, true, false, ◌&&◌, ◌||◌, List, [],
  ◌∷◌, ◌++◌, ◌==◌, take, length, keep, all, ltb, arith, inl, inr, Bool-cases,
}
use yumyums_purchase_orders.Common.Int.{}
use yumyums_purchase_orders.Common.Keep.{keep-head, keep-tail, length-keep}
use yumyums_purchase_orders.Pull.Url.{Keyset}
use yumyums_purchase_orders.Pull.{Row, keyset_of, next_checkpoint}

-- What holds of the keyset of each row.
abbrev pub Each : {P : Type 0} → (Keyset → Type 0) → List (Row P) → Type 0
Each Q [] = Unit
Each Q (r ∷ rs) = Q (keyset_of r) × Each Q rs

module _ {P : Type 0} (Q : Keyset → Type 0) where
  pub Each-keep : (p : Row P → Bool) (rows : List (Row P)) → Each Q rows → Each Q (keep p rows)
  Each-keep p [] h = tt
  Each-keep p (r ∷ rows) h = elim (Bool-cases (p r)) [
    | inl y ↦ rw y (h.0, Each-keep p rows h.1)
    | inr n ↦ rw n (Each-keep p rows h.1)
  ]

  Each-take : (b : ℕ) (rows : List (Row P)) → Each Q rows → Each Q (take b rows)
  Each-take zero rows h = tt
  Each-take (suc b) [] h = tt
  Each-take (suc b) (r ∷ rows) h = (h.0, Each-take b rows h.1)

  Each-next : (k : Keyset) (rows : List (Row P)) → Q k → Each Q rows → Q (next_checkpoint k rows)
  Each-next k [] q h = q
  Each-next k (r ∷ rows) q h = Each-next (keyset_of r) rows h.0 h.1

  -- What holds of a checkpoint and of the rows holds of the checkpoint after a batch of them.
  pub Each-batch :
      (b : ℕ) (p : Row P → Bool) (k : Keyset) (rows : List (Row P))
      → Q k
      → Each Q rows
      → Q (next_checkpoint k (take b (keep p rows)))
  Each-batch b p k rows q h =
      Each-next k (take b (keep p rows)) q (Each-take b (keep p rows) (Each-keep p rows h))

module _ (instant uuid_value : String → ℕ) where
  -- The order of the keysets: by the instant, and at the same instant by the id.
  abbrev pub key_lt : Keyset → Keyset → Bool
  key_lt a b =
      ltb (instant a.updated_at) (instant b.updated_at)
      || (instant a.updated_at == instant b.updated_at && ltb (uuid_value a.id) (uuid_value b.id))

  module _ {P : Type 0} where
    abbrev pub above : Keyset → List (Row P) → Bool
    above k rows = all (λ r. key_lt k (keyset_of r)) rows

    -- Rows in the order of their keysets, no two of which are the same.
    abbrev pub is_ordered : List (Row P) → Bool
    is_ordered [] = true
    is_ordered (r ∷ rs) = above (keyset_of r) rs && is_ordered rs

    -- The rows after a keyset.
    abbrev pub after : Keyset → List (Row P) → List (Row P)
    after k rows = keep (λ r. key_lt k (keyset_of r)) rows

    pub above-keep :
        (k : Keyset) (p : Row P → Bool) (rows : List (Row P))
        → above k rows ≡ true
        → above k (keep p rows) ≡ true
    above-keep k p [] h = refl
    above-keep k p (r ∷ rows) h = ground (arith, h, above-keep k p rows)

    pub ordered-keep :
        (p : Row P → Bool) (rows : List (Row P))
        → is_ordered rows ≡ true
        → is_ordered (keep p rows) ≡ true
    ordered-keep p [] h = refl
    ordered-keep p (r ∷ rows) h =
        ground (arith, h, ordered-keep p rows, above-keep (keyset_of r) p rows)

    above_trans :
        (j k : Keyset) (rows : List (Row P))
        → key_lt j k ≡ true
        → above k rows ≡ true
        → above j rows ≡ true
    above_trans j k [] h a = refl
    above_trans j k (r ∷ rows) h a = ground (arith, h, a, above_trans j k rows h)

    -- The rows after a keyset that they all come after are all of them.
    pub after-all : (k : Keyset) (rows : List (Row P)) → above k rows ≡ true → after k rows ≡ rows
    after-all k [] h = refl
    after-all k (r ∷ rows) h = ground (arith, h, after-all k rows)

    -- A checkpoint never falls behind a row of its batch.
    checkpoint-past :
        (k m : Keyset) (rows : List (Row P))
        → key_lt m k ≡ false
        → above m rows ≡ true
        → is_ordered rows ≡ true
        → key_lt (next_checkpoint m rows) k ≡ false
    checkpoint-past k m [] n a o = n
    checkpoint-past k m (r ∷ rows) n a o =
        checkpoint-past k (keyset_of r) rows (ground (arith, n, a)) (ground (arith, o))
          (ground (arith, o))

    above-take :
        (k : Keyset) (b : ℕ) (rows : List (Row P))
        → above k rows ≡ true
        → above k (take b rows) ≡ true
    above-take k zero rows h = refl
    above-take k (suc b) [] h = refl
    above-take k (suc b) (r ∷ rows) h = ground (arith, h, above-take k b rows)

    ordered-take :
        (b : ℕ) (rows : List (Row P)) → is_ordered rows ≡ true → is_ordered (take b rows) ≡ true
    ordered-take zero rows h = refl
    ordered-take (suc b) [] h = refl
    ordered-take (suc b) (r ∷ rows) h =
        ground (arith, h, ordered-take b rows, above-take (keyset_of r) b rows)

    -- What comes after a batch's checkpoint comes after the checkpoint before.
    after-next :
        (k : Keyset) (rows : List (Row P)) (r : Row P)
        → above k rows ≡ true
        → is_ordered rows ≡ true
        → key_lt (next_checkpoint k rows) (keyset_of r) ≡ true
        → key_lt k (keyset_of r) ≡ true
    after-next k [] r a o h = h
    after-next k (x ∷ rows) r a o h =
        ground (arith, a, after-next (keyset_of x) rows r (ground (arith, o)) (ground (arith, o)) h)

    pub above-after : (k : Keyset) (rows : List (Row P)) → above k (after k rows) ≡ true
    above-after k [] = refl
    above-after k (r ∷ rows) = ground (arith, above-after k rows)

    after-after :
        (j k : Keyset) (rows : List (Row P))
        → ((r : Row P) → key_lt k (keyset_of r) ≡ true → key_lt j (keyset_of r) ≡ true)
        → after k (after j rows) ≡ after k rows
    after-after j k [] w = refl
    after-after j k (r ∷ rows) w = ground (arith, w r, after-after j k rows w)
