-- ===== src/Scan/Tests.antt =====
-- A customer with one live and one redeemed code, scans of it, and two enqueues of one code that meet.
use yumyums_purchase_orders.Common.{
  arith, ℕ, String, ◌≡◌, refl, true, false, List, [], ◌∷◌, Option, none, some, if◌then◌else◌,
  text_eq, ◌⊎◌, length,
}
use yumyums_purchase_orders.Common.Int.{ℤ, pos, ◌+ℤ◌}
use yumyums_purchase_orders.SyncClock.{SyncClock, is_expired, now, offset_of}
use yumyums_purchase_orders.Scan.{Code, Offer, Embedded, resolve, resolve_offers}
use yumyums_purchase_orders.Scan.Payload.{extract_token, IsFound, extract_token-IsFound}
use yumyums_purchase_orders.Scan.Live.{IsReady, resolve-offer_ready}
use yumyums_purchase_orders.Scan.Policy.{Happens, documents, attaching, failed, settled, Source}
use yumyums_purchase_orders.Scan.Serial.{Serial, Move, enqueue, advance, move, moves}
use yumyums_purchase_orders.Scan.Serial.Runs.{IsSerial}
use yumyums_purchase_orders.Scan.Serial.Atomic.{apply_all, history, moves-atomic}

-- The token of a scanned address.
token_found : extract_token "https://x/r/tok?o=1" ≡ some "tok"
unfolding extract_token
token_found = refl

token_unfinished : extract_token "https://x/r/tok/more" ≡ none
unfolding extract_token
token_unfinished = refl

extract_token-IsFound_example : IsFound "https://x/r/tok?o=1" "tok"
extract_token-IsFound_example = extract_token-IsFound "https://x/r/tok?o=1" "tok" token_found

-- The two dates of the rows; the clock is not calibrated and reads 50.
abbrev parse : String → Option ℤ
parse t =
    if text_eq t "late" then some (pos 100) else if text_eq t "early" then some (pos 10) else none

abbrev clock : SyncClock
clock = record { state = none; captures = 0 }

abbrev live_row : Code
live_row = record {
  id = "c1";
  token_hash = "h";
  campaign_id = some "camp";
  expires_at = "late";
  redeemed_at = none;
  redeemed_by = none;
}

abbrev used_row : Code
used_row = record {
  id = "c2";
  token_hash = "h";
  campaign_id = some "camp";
  expires_at = "late";
  redeemed_at = some "early";
  redeemed_by = some "till";
}

abbrev no_offer : Option (Embedded ℕ)
no_offer = none

abbrev shown : List Offer
shown = record { code_id = "c1"; campaign_id = some "camp"; expires_at = "late" } ∷ []

resolve-offer_ready_example :
    (◌≡◌ {A = Option String} (some "h") (some "h"))
    × (IsReady parse clock (pos 50) "h" (live_row ∷ []) shown
        ⊎ IsReady parse clock (pos 50) "h" (used_row ∷ []) shown)
unfolding resolve resolve_offers is_expired now offset_of ◌+ℤ◌
resolve-offer_ready_example =
    resolve-offer_ready parse clock (pos 50) false (used_row ∷ []) (live_row ∷ []) (some "h")
      no_offer "h" shown refl

-- A campaign that the replica delivered as one that needs no connection.
abbrev delivery : List Happens
delivery =
    attaching
    ∷ failed "503"
    ∷ documents (record { id = "camp"; requires_online = false } ∷ [])
    ∷ settled
    ∷ []

abbrev attached_source : Source
attached_source = record { by_id = []; attached = true; ready = false; last_error = none }

-- Two calls of one code: without the wrapper both searches would come before both inserts.
abbrev meeting : List (Move ℕ)
meeting =
    enqueue "c1" false 0 "a"
    ∷ enqueue "c1" false 0 "b"
    ∷ advance 0
    ∷ advance 1
    ∷ advance 0
    ∷ advance 0
    ∷ []

abbrev at_rest : Serial ℕ
at_rest = record { attempts = []; calls = [] }

at_rest-IsSerial : IsSerial at_rest
at_rest-IsSerial = record { single = λ k. ground arith; fits = tt }

one_inserted : length (moves meeting at_rest).attempts ≡ 1
unfolding moves move
one_inserted = refl

moves-atomic_example : (moves meeting at_rest).attempts ≡ apply_all (history meeting at_rest) []
moves-atomic_example = moves-atomic meeting at_rest at_rest-IsSerial

abbrev waiting : Serial ℕ
waiting = record {
  attempts = [];
  calls =
      record { code_id = "c1"; unverified = false; payload = 0; fresh_id = "a"; looked = true }
      ∷ record { code_id = "c1"; unverified = false; payload = 0; fresh_id = "b"; looked = false }
      ∷ [];
}
