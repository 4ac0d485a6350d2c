-- ===== src/Sync/Ops/Toasts.antt =====
-- sync.js, `enqueueSyncToast` and `flushSyncToast`: how many fields a toast says that each user changed. The
-- queue is an object by the user's id, of ids that are not array indices; `show` prints a number.
use yumyums_purchase_orders.Common.{
  ℕ, ◌+◌, String, ◌≡◌, refl, ap, ◌∙◌, Bool, List, [], ◌∷◌, Option, none, some, arith, if◌then◌else◌,
  text_eq, text_cases, eq_refl, inl, inr, length, ltb, map,
}
use mathlib.Core.Path.{subst}
use Prim.Native.String.{◌++◌ as text_append}
use yumyums_purchase_orders.Store.{lookup, write}
use yumyums_purchase_orders.Store.Keys.{lookup-write_self, lookup-write_ne}

pub record Toast : Type 0 where
  pub name : String
  pub count : ℕ

-- A call of `enqueueSyncToast`.
pub record Enqueued : Type 0 where
  pub user_id : String
  pub user_name : String
  pub field_ids : List String

-- `userId || '_conflict'`.
abbrev pub toast_key : String → String
toast_key user_id = if text_eq user_id "" then "_conflict" else user_id

abbrev pub toast_or_new : String → Option Toast → Toast
toast_or_new name none = record { name = name; count = 0 }
toast_or_new name (some t) = t

-- `n` more fields under a key.
abbrev pub count_more : String → String → ℕ → List (String × Toast) → List (String × Toast)
count_more k name n queue =
    let t = toast_or_new name (lookup k queue) in write k (record t { count = t.count + n }) queue

unfoldable pub enqueue_sync_toast : Enqueued → List (String × Toast) → List (String × Toast)
enqueue_sync_toast e queue = count_more (toast_key e.user_id) e.user_name (length e.field_ids) queue

abbrev pub toast_text : (ℕ → String) → Toast → String
toast_text show t = text_append (show t.count) (
    text_append (text_append " field" (if ltb 1 t.count then "s" else ""))
      (text_append " updated by " t.name))

-- `flushSyncToast`: the queue is emptied, and the texts that the toast joins are given where a checklist is
-- open and something was queued.
unfoldable pub flush_sync_toast :
    (ℕ → String) → Bool → List (String × Toast) → List (String × Toast) × List String
flush_sync_toast show is_open [] = ([], [])
flush_sync_toast show is_open ((k, t) ∷ queue) =
    ([], if is_open then toast_text show t ∷ map (λ e. toast_text show e.1) queue else [])

abbrev pub enqueue_all : List Enqueued → List (String × Toast) → List (String × Toast)
enqueue_all [] queue = queue
enqueue_all (e ∷ es) queue = enqueue_all es (enqueue_sync_toast e queue)

-- How many fields were queued under a key.
abbrev pub queued : String → List Enqueued → ℕ
queued k [] = 0
queued k (e ∷ es) =
    (if text_eq (toast_key e.user_id) k then length e.field_ids else 0) + queued k es

abbrev pub count_at : Option Toast → ℕ
count_at none = 0
count_at (some t) = t.count

toast_or_new-count : (name : String) (o : Option Toast) → (toast_or_new name o).count ≡ count_at o
toast_or_new-count name none = refl
toast_or_new-count name (some t) = refl

count_more-count :
    (j k name : String) (n : ℕ) (queue : List (String × Toast))
    → count_at (lookup k (count_more j name n queue))
      ≡ count_at (lookup k queue) + (if text_eq j k then n else 0)
count_more-count j k name n queue = elim (text_cases j k) [
  | inl same ↦
      subst
        (λ i.
          count_at (lookup i (count_more j name n queue))
          ≡ count_at (lookup i queue) + (if text_eq j i then n else 0))
        same
        (ap count_at (lookup-write_self j _ queue)
          ∙ ground (arith, eq_refl j, toast_or_new-count name (lookup j queue)))
  | inr apart ↦ ap count_at (lookup-write_ne j k _ queue apart) ∙ ground (arith, apart)
]

enqueue_all-count :
    (k : String) (es : List Enqueued) (queue : List (String × Toast))
    → count_at (lookup k (enqueue_all es queue)) ≡ count_at (lookup k queue) + queued k es
unfolding enqueue_sync_toast
enqueue_all-count k [] queue = omega arith
enqueue_all-count k (e ∷ es) queue =
    let key = toast_key e.user_id in
    let n = length e.field_ids in
    let next = count_more key e.user_name n queue in
    enqueue_all-count k es next
    ∙ (ap (λ c. c + queued k es) (count_more-count key k e.user_name n queue) ∙ omega arith)

-- After a flush a toast counts for each user the fields that were queued since, over any number of
-- operations and in any order of users; operations without a user share one key.
pub flush_sync_toast-count :
    (show : ℕ → String) (is_open : Bool) (before : List (String × Toast)) (es : List Enqueued)
    (k : String)
    → count_at (lookup k (enqueue_all es (flush_sync_toast show is_open before).0)) ≡ queued k es
unfolding flush_sync_toast
flush_sync_toast-count show is_open [] es k = enqueue_all-count k es [] ∙ omega arith
flush_sync_toast-count show is_open (t ∷ before) es k = enqueue_all-count k es [] ∙ omega arith
