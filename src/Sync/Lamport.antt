-- ===== src/Sync/Lamport.antt =====
-- sync.js, `LamportClock`: the clock of a tab, with the record that it persists in IndexedDB
-- (`syncMeta`, key 'clock'). The store is IndexedDB's, a parameter of the page: what a `put` that
-- succeeds leaves there is a field of the state, so that the next `init` can read it.
use yumyums_purchase_orders.Common.{
  ℕ, ◌+◌, ◌≤◌, ◌<◌, max, String, ◌≡◌, refl, List, [], ◌∷◌, Option, none, some, arith,
}

-- The record `{ id: 'clock', lamport_ts, device_id }`.
pub record Meta : Type 0 where
  pub lamport_ts : ℕ
  pub device_id : String

-- A clock, and what its store holds under 'clock'.
pub record LamportClock : Type 0 where
  pub ts : ℕ
  pub device_id : String
  pub stored : Option Meta

-- `idbPut(db, 'syncMeta', …)`.
abbrev persist : LamportClock → LamportClock
persist c = record c { stored = some (record { lamport_ts = c.ts; device_id = c.device_id }) }

-- `LamportClock.init`, with the fresh id that `generateUUID` gave, on the store that it opened.
pub init : String → Option Meta → LamportClock
init uuid none = persist (record { ts = 0; device_id = uuid; stored = none })
init uuid (some meta) =
    persist (record { ts = meta.lamport_ts; device_id = uuid; stored = some meta })

unfoldable pub tick : LamportClock → LamportClock × ℕ
tick c = let c' = persist (record c { ts = c.ts + 1 }) in (c', c'.ts)

unfoldable pub receive : LamportClock → ℕ → LamportClock
receive c remote = persist (record c { ts = max c.ts remote + 1 })

-- What a tab does with its clock.
pub data ClockEvent : Type 0 where
  local : ClockEvent
  remote : ℕ → ClockEvent

abbrev pub step : LamportClock → ClockEvent → LamportClock
step c local = (tick c).0
step c (remote r) = receive c r

abbrev pub steps : LamportClock → List ClockEvent → LamportClock
steps c [] = c
steps c (e ∷ es) = steps (step c e) es

-- The store holds the clock's own time and id.
abbrev pub IsPersisted : LamportClock → Type 0
IsPersisted c = c.stored ≡ some (record { lamport_ts = c.ts; device_id = c.device_id })

step-lt : (c : LamportClock) (e : ClockEvent) → c.ts < (step c e).ts
unfolding tick receive
step-lt c local = omega arith
step-lt c (remote r) = omega arith

pub steps-le : (c : LamportClock) (es : List ClockEvent) → c.ts ≤ (steps c es).ts
steps-le c [] = omega arith
steps-le c (e ∷ es) = omega (arith, step-lt c e, steps-le (step c e) es)

-- A stamp made by `tick` is later than the clock was before, than every stamp that was received on
-- the way, and than every stamp made before it: after any events, a tick gives a number above
-- the time before them, and a number above a stamp received first.
pub tick-after :
    (c : LamportClock) (r : ℕ) (es : List ClockEvent)
    → (c.ts < (tick (steps (receive c r) es)).1) × (r < (tick (steps (receive c r) es)).1)
unfolding tick receive
tick-after c r es =
    (omega (arith, steps-le (receive c r) es), omega (arith, steps-le (receive c r) es))

step-IsPersisted : (c : LamportClock) (e : ClockEvent) → IsPersisted (step c e)
unfolding tick receive
step-IsPersisted c local = refl
step-IsPersisted c (remote r) = refl

steps-IsPersisted :
    (c : LamportClock) (es : List ClockEvent) → IsPersisted c → IsPersisted (steps c es)
steps-IsPersisted c [] h = h
steps-IsPersisted c (e ∷ es) h = steps-IsPersisted (step c e) es (step-IsPersisted c e)

init-IsPersisted : (uuid : String) (meta : Option Meta) → IsPersisted (init uuid meta)
unfolding init
init-IsPersisted uuid none = refl
init-IsPersisted uuid (some meta) = refl

-- A reload loses no time: a clock started again on what the store holds after any events goes on
-- from the same time, under the new id, and its first stamp is above all that came before.
pub init-reload :
    (uuid fresh : String) (meta : Option Meta) (es : List ClockEvent)
    → let before = steps (init uuid meta) es in
      let again = init fresh before.stored in
      (again.ts ≡ before.ts) × (again.device_id ≡ fresh) × (before.ts < (tick again).1)
unfolding tick
init-reload uuid fresh meta es =
    let before = steps (init uuid meta) es in
    let (same, id) = reload fresh before (steps-IsPersisted _ es (init-IsPersisted uuid meta)) in
    (same, id, omega (arith, same))
  where
    reload :
        (f : String) (c : LamportClock)
        → IsPersisted c
        → ((init f c.stored).ts ≡ c.ts) × ((init f c.stored).device_id ≡ f)
    reload f c h = unfold init in rw h (refl, refl)
