-- ===== src/SyncClock/Tests.antt =====
-- The sync clock at a device that is five seconds fast.
use yumyums_purchase_orders.Common.{arith, eq_iff, ◌≢◌, String, none, some, Option}
use yumyums_purchase_orders.Common.Int.{ℤ, pos}
use yumyums_purchase_orders.SyncClock.{SyncClock, ClockState, create_sync_clock}

-- A parser that reads one date, and none of the others.
abbrev parse : String → Option ℤ
parse String.[] = none
parse (String.◌∷◌ x r) = some (pos 1000)

abbrev fresh : SyncClock
fresh = create_sync_clock none

date_nonempty : "Sat, 05 Sep 2026" ≢ String.[]
date_nonempty = λ h. ground (arith, (eq_iff "Sat, 05 Sep 2026" String.[]).1 h)

abbrev calibrated : ClockState
calibrated = record {
  offset_ms = pos 5000;
  captured_at_device = some (pos 6000);
  captured_at_server = some (pos 1000);
}
