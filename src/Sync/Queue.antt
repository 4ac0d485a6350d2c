-- ===== src/Sync/Queue.antt =====
-- sync.js: `api`, the offline queue of submissions (`enqueueSubmission`, `drainQueue`) and what its
-- replay does with each answer of the server. The network is the function `server`, the order of
-- texts by `localeCompare` the test `le`; the store is a list of entries with distinct ids.
pub mod Order
use yumyums_purchase_orders.Common.{
  ℕ, ◌≤◌, String, Bool, true, false, not, ◌&&◌, ◌||◌, List, [], ◌∷◌, ◌++◌, Option, none, some, ◌==◌,
  leb, if◌then◌else◌, text_eq, keep,
}

-- What `fetch` gives: a rejected promise, or a response with its status, whether its body parses
-- as JSON, and the `error` field of the body.
pub data Response : Type 0 where
  no_response : Response
  response : ℕ → Bool → Option String → Response

-- The error that `api` throws, with the two fields that its callers read.
pub record ApiError : Type 0 where
  pub status : Option ℕ
  pub error : Option String

pub data ApiResult : Type 0 where
  body : ApiResult
  empty : ApiResult
  conflict : ApiResult
  failed : ApiError → ApiResult

abbrev plain_error : ApiError
plain_error = record { status = none; error = none }

-- `res.ok`.
abbrev is_ok : ℕ → Bool
is_ok status = leb 200 status && leb status 299

abbrev error_text : Bool → Option String → Option String
error_text true e = e
error_text false e = some "unknown"

unfoldable pub api : Response → ApiResult
api no_response = failed plain_error
api (response status parses e) =
    if status == 401
    then failed plain_error
    else if status == 409
    then conflict
    else if not (is_ok status)
    then failed (record { status = some status; error = error_text parses e })
    else if status == 204
    then empty
    else if parses
    then body
    else failed plain_error

-- A queued submission: its key, when it was queued (older entries have no stamp), the template.
pub record Entry : Type 0 where
  pub id : String
  pub queued_at : Option String
  pub template_id : String
  pub period : String

-- `idbPut` and `idbDelete` on 'submitQueue'.
abbrev pub idb_delete : String → List Entry → List Entry
idb_delete id q = keep (λ e. not (text_eq e.id id)) q

abbrev pub idb_put : Entry → List Entry → List Entry
idb_put entry q = idb_delete entry.id q ++ entry ∷ []

-- `enqueueSubmission`, with the stamps of `new Date().toISOString()` and `currentSubmitPeriod()`.
pub enqueue_submission : Entry → String → String → List Entry → List Entry
enqueue_submission payload now today q =
    idb_put (record payload { queued_at = some now; period = today }) q

-- `String(a && a.queuedAt || '')`.
abbrev pub sort_key : Entry → String
sort_key e = elim e.queued_at [ none ↦ "" | some t ↦ t ]

-- The queue, the conflict cards drawn, and the entries posted, in order.
pub record Drained : Type 0 where
  pub queue : List Entry
  pub cards : List Entry
  pub posted : List Entry

abbrev pub is_text : Option String → String → Bool
is_text none t = false
is_text (some s) t = text_eq s t

abbrev pub is_status : Option ℕ → ℕ → Bool
is_status none n = false
is_status (some s) n = s == n

module _ (le : String → String → Bool) where
  -- The stable sort by `queuedAt`.
  abbrev pub insert_entry : Entry → List Entry → List Entry
  insert_entry e [] = e ∷ []
  insert_entry e (x ∷ xs) =
      if le (sort_key e) (sort_key x) then e ∷ (x ∷ xs) else x ∷ insert_entry e xs

  abbrev pub sort_entries : List Entry → List Entry
  sort_entries [] = []
  sort_entries (e ∷ es) = insert_entry e (sort_entries es)

module _ (server : Entry → Response) (le : String → String → Bool) where
  -- One pass of the `try` and `catch` of the loop: the state after it, and whether to go on.
  unfoldable pub replay : Entry → Drained → Drained × Bool
  replay e d =
      let sent = record d { posted = d.posted ++ e ∷ [] } in
      let done = record sent { queue = idb_delete e.id sent.queue } in
      elim (api (server e)) [
        | body ↦ (done, true)
        | empty ↦ (done, true)
        | conflict ↦ (done, true)
        | failed err ↦
            if is_text err.error "duplicate_submission"
            then (done, true)
            else if is_status err.status 409
            then (record done { cards = done.cards ++ e ∷ [] }, true)
            else (sent, false)
      ]

  -- The loop, which `break` leaves.
  unfoldable pub replay_all : List Entry → Drained → Drained
  unfolding replay
  replay_all [] d = d
  replay_all (e ∷ es) d =
      let rest = replay_all es (replay e d).0 in if (replay e d).1 then rest else (replay e d).0

  -- `drainQueue`: the guard, the sorted replay, and `_draining`, which the end clears.
  unfoldable pub drain_queue : Bool → Bool → List Entry → Drained
  unfolding replay_all
  drain_queue draining on_line q =
      let idle : Drained = record { queue = q; cards = []; posted = [] } in
      if draining || not on_line then idle else replay_all (sort_entries le q) idle
