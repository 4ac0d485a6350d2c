-- ===== src/Boot.antt =====
-- sync-rxdb/bootstrap.js: what a page does before it reads from the local database. The flag is that of
-- `resolveSyncReadFlag`, the grants those of `cachedGrantSlugs` and `expandGrantSlugs` (sync-rxdb/client.js),
-- `openSyncScope` the registry of replications. The database and RxDB are parameters: whether a start
-- succeeds is an event.
pub mod Grants
pub mod Single
pub mod Ends
pub mod Keys
pub mod Runs
mod Tests
use yumyums_purchase_orders.Common.{
  ℕ, ◌+◌, String, Bool, true, false, not, ◌&&◌, List, [], ◌∷◌, Option, none, some, ◌==◌,
  if◌then◌else◌, text_eq,
}
use yumyums_purchase_orders.Store.{lookup, write, remove}

-- `new URLSearchParams(location_.search).get(…)`: there is no search or it throws, the parameter is not
-- there, or it is.
pub data Query : Type 0 where
  unread absent : Query
  given : String → Query

abbrev pub is_text : Option String → String → Bool
is_text none t = false
is_text (some s) t = text_eq s t

-- `resolveSyncReadFlag`, with what the page's storage holds afterwards: `none` is a page without storage.
-- A storage that throws is not modelled.
unfoldable pub resolve_sync_read_flag :
    Query → Option (Option String) → Bool × Option (Option String)
resolve_sync_read_flag q none = (false, none)
resolve_sync_read_flag unread (some item) = (is_text item "on", some item)
resolve_sync_read_flag absent (some item) = (is_text item "on", some item)
resolve_sync_read_flag (given v) (some item) =
    let left : Option String = if text_eq v "on" then some "on" else none in
    (is_text left "on", some left)

-- How far a handle is: its start is under way, it has resolved, it has been cancelled, it was rejected.
pub data Phase : Type 0 where
  pending running cancelled rejected : Phase

abbrev pub is_live : Phase → Bool
is_live pending = true
is_live running = true
is_live _ = false

pub record Handle : Type 0 where
  pub key : String
  pub phase : Phase

-- `openScopes`, and the handles that were made: each has a number.
pub record Registry : Type 0 where
  pub open_scopes : List (String × ℕ)
  pub handles : ℕ → Option Handle
  pub next : ℕ

abbrev pub new_registry : Registry
new_registry = record { open_scopes = []; handles = λ i. none; next = 0 }

abbrev pub put_handle : ℕ → Handle → Registry → Registry
put_handle i h r = record r { handles = λ j. if j == i then some h else r.handles j }

pub data Opened : Type 0 where
  refused_flag refused_client : Opened
  handle : ℕ → Opened

-- `openSyncScope`, of a scope whose key was found: `enabled` is the flag, `has_client` whether the client
-- was built.
unfoldable pub open_scope : String → Registry → Registry × ℕ
open_scope key r = elim (lookup key r.open_scopes) [
  | some i ↦ (r, i)
  | none ↦ (
    put_handle r.next (record { key = key; phase = pending })
        (record r { open_scopes = write key r.next r.open_scopes; next = r.next + 1 }),
    r.next,
  )
]

unfoldable pub open_sync_scope : Bool → Bool → String → Registry → Registry × Opened
unfolding open_scope
open_sync_scope enabled has_client key r =
    let (after, i) = open_scope key r in
    if not enabled
    then (r, refused_flag)
    else if not has_client
    then (r, refused_client)
    else (after, handle i)

-- What happens to handles: a start ends, or a page cancels one that has started.
pub data Event : Type 0 where
  opens : String → Event
  resolves rejects cancels : ℕ → Event

abbrev pub is_number : Option ℕ → ℕ → Bool
is_number none i = false
is_number (some j) i = j == i

abbrev pub settle : Bool → ℕ → Handle → Registry → Registry
settle true i h r = put_handle i (record h { phase = running }) r
settle false i h r =
    let failed = put_handle i (record h { phase = rejected }) r in
    if is_number (lookup h.key r.open_scopes) i
    then record failed { open_scopes = remove h.key r.open_scopes }
    else failed

-- `cancel`, which deletes the key whichever handle is under it.
abbrev pub cancel : ℕ → Handle → Registry → Registry
cancel i h r = record (put_handle i (record h { phase = cancelled }) r) {
  open_scopes = remove h.key r.open_scopes;
}

-- A start ends once; a handle that has resolved can be cancelled, again and again.
abbrev pub event_of : Event → Option Handle → Registry → Registry
event_of (opens key) o r = (open_scope key r).0
event_of (resolves i) (some h) r = elim h.phase [ pending ↦ settle true i h r | _ ↦ r ]
event_of (rejects i) (some h) r = elim h.phase [ pending ↦ settle false i h r | _ ↦ r ]
event_of (cancels i) (some h) r = elim h.phase [
  | running ↦ cancel i h r
  | cancelled ↦ cancel i h r
  | _ ↦ r
]
event_of _ none r = r

abbrev pub target : Event → Registry → Option Handle
target (opens key) r = none
target (resolves i) r = r.handles i
target (rejects i) r = r.handles i
target (cancels i) r = r.handles i

unfoldable pub happen : Event → Registry → Registry
unfolding open_scope
happen e r = event_of e (target e r) r

abbrev pub happens : List Event → Registry → Registry
happens [] r = r
happens (e ∷ es) r = happens es (happen e r)
