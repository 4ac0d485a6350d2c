-- ===== src/Sync/Queue/Order.antt =====
-- What a drain of the offline queue sends, in which order, and what it leaves behind.
use yumyums_purchase_orders.Common.{
  String, ◌≡◌, refl, Bool, true, false, not, ◌||◌, ◌&&◌, ◌==◌, any, text_eq, List, [], ◌∷◌, ◌++◌,
  arith, if◌then◌else◌, Bool-cases, inl, inr, text_cases,
}
use mathlib.Core.List.{append_assoc, append-nil, Perm}
use mathlib.Core.List.Perm
use yumyums_purchase_orders.Sync.Queue.{
  Response, no_response, response, ApiError, ApiResult, body, empty, conflict, failed, api, Entry,
  idb_delete, sort_key, Drained, is_text, is_status, replay, replay_all, drain_queue, insert_entry,
  sort_entries,
}

-- An answer that takes the entry off the queue: one that `api` returns, a 409 among them, or the
-- error 'duplicate_submission'.
abbrev pub settles : ApiResult → Bool
settles body = true
settles empty = true
settles conflict = true
settles (failed e) = is_text e.error "duplicate_submission"

-- `api` returns on 409, so no error that it throws has that status.
api-never_409 : (r : Response) (e : ApiError) → api r ≡ failed e → is_status e.status 409 ≡ false
unfolding api
api-never_409 no_response e h = ground (arith, h)
api-never_409 (response status parses t) e h = ground (arith, h)

-- The entries of a queue but for some.
abbrev pub without : List Entry → List Entry → List Entry
without [] q = q
without (e ∷ es) q = without es (idb_delete e.id q)

-- Whether an answer has the status 409, and whether a submission is in a list.
abbrev pub is_refused : Response → Bool
is_refused no_response = false
is_refused (response status parses t) = status == 409

abbrev pub has_entry : String → List Entry → Bool
has_entry id es = any (λ e. text_eq e.id id) es

refused_settles : (r : Response) → is_refused r ≡ true → settles (api r) ≡ true
unfolding api
refused_settles no_response h = ground (arith, h)
refused_settles (response status parses t) h = ground (arith, h)

deleted : (id : String) (q : List Entry) → has_entry id (idb_delete id q) ≡ false
deleted id [] = refl
deleted id (e ∷ q) = ground (arith, deleted id q)

still_absent :
    (id other : String) (q : List Entry)
    → has_entry id q ≡ false
    → has_entry id (idb_delete other q) ≡ false
still_absent id other [] h = refl
still_absent id other (e ∷ q) h = ground (arith, h, still_absent id other q)

absent :
    (id : String) (es q : List Entry) → has_entry id q ≡ false → has_entry id (without es q) ≡ false
absent id [] q h = h
absent id (e ∷ es) q h = absent id es (idb_delete e.id q) (still_absent id e.id q h)

without-absent :
    (id : String) (es q : List Entry) → has_entry id es ≡ true → has_entry id (without es q) ≡ false
without-absent id [] q h = ground (arith, h)
without-absent id (e ∷ es) q h = elim (text_cases e.id id) [
  | inl same ↦ absent id es (idb_delete e.id q) (rw same (deleted id q))
  | inr other ↦ without-absent id es (idb_delete e.id q) (ground (arith, h, other))
]

module _ (server : Entry → Response) where
  -- The entries that are sent: up to the first one that is not settled, which is the last.
  abbrev pub attempted : List Entry → List Entry
  attempted [] = []
  attempted (e ∷ es) =
      let rest = attempted es in e ∷ (if settles (api (server e)) then rest else [])

  -- The entries that are settled before that.
  abbrev pub settled : List Entry → List Entry
  settled [] = []
  settled (e ∷ es) = let rest = settled es in if settles (api (server e)) then e ∷ rest else []

  -- Whether a submission with the id is among those that the server answers with the status 409.
  abbrev pub has_refused : String → List Entry → Bool
  has_refused id es = any (λ e. text_eq e.id id && is_refused (server e)) es

  attempted-settled :
      (id : String) (es : List Entry)
      → has_refused id (attempted es) ≡ true
      → has_entry id (settled es) ≡ true
  attempted-settled id [] h = h
  attempted-settled id (e ∷ es) h =
      ground (arith, h, refused_settles (server e), attempted-settled id es)

module _ (server : Entry → Response) (le : String → String → Bool) where
  replay_result :
      (e : Entry) (d : Drained) (r : ApiResult)
      → api (server e) ≡ r
      → replay server le e d ≡ (
        record d {
          queue = if settles r then idb_delete e.id d.queue else d.queue;
          posted = d.posted ++ e ∷ [];
        },
        settles r,
      )
  unfolding replay
  replay_result e d body h = ground (arith, h)
  replay_result e d empty h = ground (arith, h)
  replay_result e d conflict h = ground (arith, h)
  replay_result e d (failed x) h = ground (arith, h, api-never_409 (server e) x h)

  replay_all_lem :
      (es : List Entry) (d : Drained)
      → replay_all server le es d ≡ record {
        queue = without (settled server es) d.queue;
        cards = d.cards;
        posted = d.posted ++ attempted server es;
      }
  unfolding replay_all
  replay_all_lem [] d = ground (arith, append-nil d.posted)
  replay_all_lem (e ∷ es) d =
      let r = replay_result e d (api (server e)) refl in
      elim (Bool-cases (settles (api (server e)))) [
        | inl y ↦ ground (
          arith,
          r,
          y,
          replay_all_lem es (replay server le e d).0,
          append_assoc d.posted (e ∷ []) (attempted server es),
        )
        | inr n ↦ ground (arith, r, n)
      ]

  -- A drain sends the entries in the order of the sort, up to the first one that is not settled; it
  -- takes off the queue exactly those settled before that, and keeps every other entry. It never
  -- draws a conflict card, whatever the server answers. Offline, or beside another drain, it
  -- does nothing.
  pub drain_queue_lem :
      (draining on_line : Bool) (q : List Entry)
      → drain_queue server le draining on_line q ≡ (
          if draining || not on_line
          then record { queue = q; cards = []; posted = [] }
          else record {
            queue = without (settled server (sort_entries le q)) q;
            cards = [];
            posted = attempted server (sort_entries le q);
          })
  unfolding drain_queue
  drain_queue_lem true on_line q = refl
  drain_queue_lem false false q = refl
  drain_queue_lem false true q = replay_all_lem (sort_entries le q) _

  -- A submission that a drain posts and the server answers with 409 is off the queue afterwards, and no
  -- card is drawn, for it or for any other: the crew member is not told that it was refused. That is so
  -- whatever else the queue holds, wherever the submission stands in it, and however the server
  -- answers the others.
  pub drain_queue-conflict :
      (draining on_line : Bool) (q : List Entry) (id : String)
      → has_refused server id (drain_queue server le draining on_line q).posted ≡ true
      → (has_entry id (drain_queue server le draining on_line q).queue ≡ false)
        × ((drain_queue server le draining on_line q).cards ≡ [])
  drain_queue-conflict true on_line q id h = ground (arith, h, drain_queue_lem true on_line q)
  drain_queue-conflict false false q id h = ground (arith, h, drain_queue_lem false false q)
  drain_queue-conflict false true q id h =
      let drained = drain_queue_lem false true q in
      ground (
        arith,
        drained,
        attempted-settled server id (sort_entries le q) (rw drained at h),
        without-absent id (settled server (sort_entries le q)) q,
      )

-- Neighbours in the list stand in the order of their keys.
abbrev pub IsSorted : (String → String → Bool) → List Entry → Type 0
IsSorted le [] = Unit
IsSorted le (x ∷ []) = Unit
IsSorted le (x ∷ (y ∷ r)) = (le (sort_key x) (sort_key y) ≡ true) × IsSorted le (y ∷ r)

insert_entry-perm :
    (le : String → String → Bool) (e : Entry) (xs : List Entry)
    → Perm (insert_entry le e xs) (e ∷ xs)
insert_entry-perm le e [] = Perm.refl (e ∷ [])
insert_entry-perm le e (x ∷ xs) = elim (Bool-cases (le (sort_key e) (sort_key x))) [
  | inl y ↦ rw y (Perm.refl (e ∷ x ∷ xs))
  | inr n ↦ rw n (Perm.trans (Perm.cons x (insert_entry-perm le e xs)) (Perm.swap e x xs))
]

sort_entries-perm : (le : String → String → Bool) (q : List Entry) → Perm (sort_entries le q) q
sort_entries-perm le [] = Perm.refl []
sort_entries-perm le (e ∷ es) =
    Perm.trans (insert_entry-perm le e (sort_entries le es)) (Perm.cons e (sort_entries-perm le es))

module _ (le : String → String → Bool)
    (total : (a b : String) → le a b ≡ false → le b a ≡ true) where
  insert_entry-IsSorted :
      (e : Entry) (xs : List Entry) → IsSorted le xs → IsSorted le (insert_entry le e xs)
  insert_entry-IsSorted e [] h = tt
  insert_entry-IsSorted e (x ∷ []) h = ground (arith, total (sort_key e) (sort_key x))
  insert_entry-IsSorted e (x ∷ (y ∷ r)) h =
      ground (arith, total (sort_key e) (sort_key x), insert_entry-IsSorted e (y ∷ r) h.1)

  sorted : (q : List Entry) → IsSorted le (sort_entries le q)
  sorted [] = tt
  sorted (e ∷ es) = insert_entry-IsSorted e (sort_entries le es) (sorted es)

  -- The presses are replayed oldest first, and none is left out or doubled: the sorted queue is a
  -- rearrangement of the queue in which neighbours are ordered by the time of queueing, an entry
  -- without a stamp counting as the empty text. The order of texts must be total.
  pub sort_entries-IsSorted :
      (q : List Entry) → IsSorted le (sort_entries le q) × Perm (sort_entries le q) q
  sort_entries-IsSorted q = (sorted q, sort_entries-perm le q)
