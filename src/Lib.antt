-- ===== src/Lib.antt =====
-- Yumyums HQ, the offline-first client of a food business' back office: the parts of its JavaScript
-- that decide what is kept, what is sent and what is shown when several devices work offline.
--
-- The program's parts, and the files that model them. Paths are from the repository's root.
--
-- Json, Conflict: the values of a response row, and sync-rxdb/conflict-handler.js, which merges a row
--   that two devices changed. Conflict has `resolveConflict` with its fields' equality and the field
--   classes, Conflict/Handler the handler and `describeConflict`. A document is a list of fields in
--   the order of the object's keys, a missing field reads as `undefined`. The subscriber's callback
--   is a function that may throw. RxDB, which calls the handler, is a parameter: an argument of
--   each call.
-- Machine: marketing/submit-machine.js, the statechart of the redemption page. Machine has the events,
--   states, context and actions; Machine/Chart the three regions with every guard and declared no-op, and
--   Machine/Chart/Compiler `buildOn` and `scanState`; Machine/Engine what one event does. XState is
--   third-party code: the record `Engine` states its documented macrostep (each region takes the first
--   enabled transition of the state's map, or else the region's wildcard; then raised events) as a
--   law, and a theorem on runs takes an engine. One raised event is processed per event: the
--   chart's theorems show that no event of the alphabet raises any, and that one of no name raises
--   one in each region that has no key for it. The mode 'throw' is not modelled.
-- Push: marketing/sync/push-replication.js. Push has the attempts, `enqueueAttempt` and what the handler
--   does with one attempt; Push/Batch its loop over the rows. What the redeem request, the replica of
--   the codes, the landing request and the patches of the local row give is an argument of each run, so
--   that every order of failures is covered; RxDB's retry is a list of runs. Push/Batch/Landed says what
--   a run over the rows has landed. Push/Arbiter is `redeem` of supabase/migrations/20260904000200_redeem_rpc.sql
--   and the handler run against it while other devices redeem, too. Push/Winner is `awaitWinner`, on fuel: one round more
--   than the wait has milliseconds is enough, when the clock moves on in each round.
-- Pull: marketing/sync/pull-replication.js. Pull/Url has the checkpoints and the address of a pull, Pull
--   the handler, with the window's bound of each request, Pull/Keysets the order of the checkpoints and
--   Pull/Walk the walk over a table. The server is a function from addresses to replies. Pull/Rest has
--   a request as data, its text in PostgREST's documented grammar and its meaning on rows; that the
--   server answers the text of a request with what the request means is a hypothesis.
-- SyncClock: marketing/sync/clock.js, the offset between the device and the server, on integers.
--   It is the clock that the pull handler calibrates.
-- Sync: sync.js, the client that the pages share: Sync/Lamport the logical clock with its persisted
--   record, Sync/Socket the backoff of the WebSocket, Sync/Queue the offline queue of submissions
--   with `api`. IndexedDB is a list of entries or an optional record, the server a function.
--   Sync/Ops has the page of workflows.html that operations change (answers, drafts, notes, photos, rejection flags),
--   Sync/Ops/Apply `applyOp` with what it calls, Sync/Ops/Catchup the clock and the page together
--   (`wsCatchUp`, `onmessage`), Sync/Ops/Echo `submitOp`, Sync/Ops/Open the runner whose template
--   changes, in two steps around its wait, Sync/Ops/Toasts the toast queue.
-- Store: sync.js, the reactive store: collections, subscribers, batches. A subscriber is a number and does
--   not call the store back.
-- Notice: sync-rxdb/conflict-notice.js, the sheet of conflicts: which records it shows, how it groups and
--   counts them. A record's drawn texts are not modelled. Notice/Rows is the store of records and its sweep,
--   Notice/Capture the records that an emission of Conflict/Handler becomes, Notice/Restore the controls of
--   sync-rxdb/conflict-notice-ui.js that change the store, with `applyRestore` given or missing.
-- ItemName: item-name.js, which of an item's names is shown. Trimming and lower case are parameters.
-- Scope: sync-rxdb/client.js, which rows a device may replicate. Scope has the scope and its check,
--   Scope/Filter the predicate on each collection, its texts and the calls on the query builder, Scope/Plan
--   the plan of a replication and `startHQReplication`; Scope/Reading says what a predicate means on a row.
-- Boot: sync-rxdb/bootstrap.js, what a page does before it reads locally. Boot has the flag and the registry of
--   replications, over a list of events, Boot/Keys the key of a scope in it, Boot/Grants the grants that surfaces are drawn by (with
--   `expandGrantSlugs` of sync-rxdb/client.js), Boot/Runs runs of the registry. Whether a start succeeds is an event.
-- Scan: marketing/scanner.js and the lookups of marketing/sync/replicas.js. Scan has the resolution of a
--   scan over the two replicas, with the clock of SyncClock; Scan/Payload the readers of a payload;
--   Scan/Policy the source of the campaigns' policies, over a list of callbacks; Scan/Serial the
--   serialised enqueues, over a list of moves in any order, with the attempts of Push.
-- Flow: marketing/submit-flow.js, the page that joins Scan and Machine. Flow has the session, the policy
--   it is opened under, `handleEffect`, `gate` and `onResult`; Flow/Steps the controls, the signals and
--   the server's reply, and runs of them; Flow/Campaign the page with the source of Scan/Policy behind
--   it. A handler is one step, but for the waits of `onResult` and of the redeem request, whose ends
--   are inputs of their own.
-- Common: tests on numbers and texts, lists measured by native numbers, integers,
--   the stable sort, what `keep` leaves.
--
-- The numbers are unbounded: the logical clock and the offsets stay far below 2^53. Loops are
-- structural recursions on the list that the source loops over; a retry or a walk runs as often as
-- its list or its number says, and the theorems hold for each.
--
-- Not modelled: the rendering of pages and banners, the construction of RxDB's collections, the camera,
-- the text of notices, and the server but for `redeem`. A catch-up of Sync/Ops is one step, so that no message or
-- edit comes between two of its operations; `replicateRxCollection` does not throw, so that no start
-- of Scope/Plan ends half-way. The rest call the parts above, or only show their results.
pub mod Common
pub mod Json
pub mod Conflict
pub mod Machine
pub mod Sync
pub mod SyncClock
pub mod Push
pub mod Pull
pub mod Scan
pub mod Scope
pub mod Store
pub mod Boot
pub mod Flow
pub mod ItemName
pub mod Notice
