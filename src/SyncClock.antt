-- ===== src/SyncClock.antt =====
-- marketing/sync/clock.js: the sync clock, which decides offline expiry on the server's time. Times
-- are milliseconds since the epoch, as integers; the device clock and `Date.parse` are parameters.
mod Tests
use yumyums_purchase_orders.Common.{
  ◌≢◌, ◌⊎◌, ℕ, ◌+◌, String, ◌≡◌, refl, Bool, true, false, Option, none, some, arith, if◌then◌else◌,
}
use yumyums_purchase_orders.Common.Int.{
  ℤ, pos, negsuc, pos_part, neg_part, sub_ℕ, ◌+ℤ◌, ◌-ℤ◌, ◌≤ℤ◌, leb_ℤ, int_laws,
}

-- `state()`: what is persisted beside the checkpoint.
pub record ClockState : Type 0 where
  pub offset_ms : ℤ
  pub captured_at_device : Option ℤ
  pub captured_at_server : Option ℤ

-- What was persisted, as it is read back: an offset that is no finite number is `none`.
pub record Persisted : Type 0 where
  pub offset_ms : Option ℤ
  pub captured_at_device : Option ℤ
  pub captured_at_server : Option ℤ

pub record SyncClock : Type 0 where
  pub state : Option ClockState
  pub captures : ℕ

-- `createSyncClock`, with the state that a former session persisted.
pub create_sync_clock : Option Persisted → SyncClock
create_sync_clock none = record { state = none; captures = 0 }
create_sync_clock (some p) = record {
  state = elim p.offset_ms [
    | none ↦ none
    | some offset ↦ some (record {
      offset_ms = offset;
      captured_at_device = p.captured_at_device;
      captured_at_server = p.captured_at_server;
    })
  ];
  captures = 0;
}

-- `offsetMs`.
unfoldable pub offset_of : SyncClock → ℤ
offset_of c = elim c.state [ none ↦ pos 0 | some s ↦ s.offset_ms ]

-- `now()`, when the device clock reads `device_now`.
unfoldable pub now : SyncClock → ℤ → ℤ
unfolding offset_of
now c device_now = device_now +ℤ offset_of c

-- `captureFromResponse`: the header 'date' (an empty one counts as none), the device clock, and
-- `Date.parse`. The result is the offset, and the state handed to `persist`.
pub capture_from_response :
    (String → Option ℤ) → SyncClock → Option String → ℤ → SyncClock × Option ℤ
capture_from_response parse c none at_device = (c, none)
capture_from_response parse c (some String.[]) at_device = (c, none)
capture_from_response parse c (some (String.◌∷◌ x rest)) at_device =
    elim (parse (String.◌∷◌ x rest)) [
      | none ↦ (c, none)
      | some server_now ↦
          let offset = server_now -ℤ at_device in
          (
            record {
              state = some (record {
                offset_ms = offset;
                captured_at_device = some at_device;
                captured_at_server = some server_now;
              });
              captures = c.captures + 1;
            },
            some offset,
          )
    ]

-- `isExpired`, of an expiry that was parsed: `none` is one that cannot be read.
unfoldable pub is_expired : SyncClock → Option ℤ → ℤ → Bool
unfolding now
is_expired c none device_now = true
is_expired c (some t) device_now = leb_ℤ t (now c device_now)

-- The device's state as it is stored.
abbrev pub persisted : ClockState → Persisted
persisted s = record {
  offset_ms = some s.offset_ms;
  captured_at_device = s.captured_at_device;
  captured_at_server = s.captured_at_server;
}

skew_cancels : (t0 t skew : ℤ) → t +ℤ skew +ℤ (t0 -ℤ (t0 +ℤ skew)) ≡ t
skew_cancels t0 t skew = omega int_laws

-- The skew of the device cancels: after a capture at the server's time `t0`, on a device whose clock
-- is off by any `skew`, the clock says that a code is expired at time `t` exactly when `t` has
-- reached the expiry, and a code whose expiry cannot be read is expired.
pub is_expired-capture :
    (parse : String → Option ℤ) (c : SyncClock) (header : String) (t0 t skew : ℤ)
    → header ≢ String.[]
    → parse header ≡ some t0
    → let c' = (capture_from_response parse c (some header) (t0 +ℤ skew)).0 in
      ((expiry : ℤ) → is_expired c' (some expiry) (t +ℤ skew) ≡ leb_ℤ expiry t)
      × (is_expired c' none (t +ℤ skew) ≡ true)
unfolding is_expired capture_from_response
is_expired-capture parse c String.[] t0 t skew n h = absurd (n refl)
is_expired-capture parse c (String.◌∷◌ x rest) t0 t skew n h =
    (λ expiry. ground (arith, h, skew_cancels t0 t skew), refl)

-- A device that is reloaded offline keeps its calibration: a clock made from the persisted state
-- reads the same time and gives the same verdict on every expiry, with its count of captures anew.
pub create-persisted :
    (s : ClockState) (n : ℕ)
    → let old : SyncClock = record { state = some s; captures = n } in
      let new = create_sync_clock (some (persisted s)) in
      ((d : ℤ) → now new d ≡ now old d)
      × ((d : ℤ) (e : Option ℤ) → is_expired new e d ≡ is_expired old e d)
      × (new.captures ≡ 0)
unfolding create_sync_clock is_expired
create-persisted s n = (λ d. refl, λ d e. ground arith, refl)
