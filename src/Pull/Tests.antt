-- ===== src/Pull/Tests.antt =====
-- A walk over a replica in which three rows share a timestamp, with batches of two, while the window's
-- bound moves past the second row.
use yumyums_purchase_orders.Common.{
  ℕ, zero, suc, ◌≤◌, String, ◌≡◌, refl, Bool, true, not, ◌&&◌, List, [], ◌∷◌, Option, none, some,
  if◌then◌else◌, text_eq, keep, arith,
}
use yumyums_purchase_orders.Common.Int.{ℤ, pos}
use yumyums_purchase_orders.Pull.Url.{
  Keyset, epoch_checkpoint, build_pull_url, keyset_predicate, normalize_checkpoint,
}
use yumyums_purchase_orders.Pull.{
  Row, Reply, Config, keyset_of, pull_documents, pull_handler, window_now,
}
use yumyums_purchase_orders.Pull.Rest.{Request, request_url, after_keyset, selected}
use yumyums_purchase_orders.Pull.Keysets.{is_ordered}
use yumyums_purchase_orders.Pull.Walk.{Answers, pull_documents_complete}

-- The texts that the rows have, read as instants and as values.
abbrev instant : String → ℕ
instant t = if text_eq t "t1" then 1 else 0

abbrev uuid_value : String → ℕ
uuid_value t =
    if text_eq t "a" then 1 else if text_eq t "b" then 2 else if text_eq t "c" then 3 else 0

abbrev row : String → Row ℕ
row id = record { updated_at = "t1"; id = id; payload = 0 }

abbrev table : List (Row ℕ)
table = row "a" ∷ row "b" ∷ row "c" ∷ []

abbrev encode : String → String
encode t = t

abbrev digits : ℕ → String
digits n = "2"

abbrev parse : String → Option ℤ
parse t = none

abbrev window : ℕ → String
window zero = "w0"
window (suc n) = "w1"

abbrev cfg : Config
cfg = record { rest_url = ""; table = "codes"; select = "id"; window_bound = some window }

abbrev expires_above : String → Row ℕ → Bool
expires_above w r = not (text_eq w "w1" && text_eq r.id "b")

abbrev is_alive : Row ℕ → Bool
is_alive r = not (text_eq r.id "b")

abbrev arrange : String → List (Row ℕ) → List (Row ℕ)
arrange order rows = rows

abbrev no_date : ℕ → Option String
no_date turn = none

-- A server that answers the requests of the walk, and no other.
abbrev request : ℕ → Keyset → Request
request turn k = after_keyset cfg (window_now cfg turn) k 2

abbrev answer_in : String → List Request → Reply ℕ
answer_in url [] = record { status = 404; date = none; rows = [] }
answer_in url (q ∷ qs) =
    let rest = answer_in url qs in
    if text_eq url (request_url encode digits cfg q)
    then record {
      status = 200;
      date = none;
      rows = selected instant uuid_value expires_above arrange q table;
    }
    else rest

abbrev both_turns : Keyset → List Request → List Request
both_turns k qs = request 0 k ∷ request 1 k ∷ qs

abbrev fetch : String → Reply ℕ
fetch url = answer_in url (
    both_turns epoch_checkpoint (
      both_turns (keyset_of (row "a"))
        (both_turns (keyset_of (row "b")) (both_turns (keyset_of (row "c")) []))))

abbrev Answered : Keyset → Type 0
Answered k =
    Answers encode digits parse ℕ fetch cfg (pos 0) 2 instant uuid_value expires_above arrange
      no_date table k

at_epoch : Answered epoch_checkpoint
unfolding Answers
at_epoch zero = refl
at_epoch (suc turn) = refl

at_a : Answered (keyset_of (row "a"))
unfolding Answers
at_a zero = refl
at_a (suc turn) = refl

at_b : Answered (keyset_of (row "b"))
unfolding Answers
at_b zero = refl
at_b (suc turn) = refl

at_c : Answered (keyset_of (row "c"))
unfolding Answers
at_c zero = refl
at_c (suc turn) = refl

always : (turn : ℕ) (r : Row ℕ) → is_alive r ≡ true → expires_above (window turn) r ≡ true
always zero r h = refl
always (suc turn) r h = ground (arith, h)

pull_documents_complete_example :
    let documents = pull_documents encode digits parse ℕ fetch cfg (pos 0) 2 0 none 3 in
    (keep is_alive documents ≡ keep is_alive table)
    × (is_ordered instant uuid_value documents ≡ true)
pull_documents_complete_example =
    pull_documents_complete encode digits parse ℕ fetch cfg (pos 0) 2 instant uuid_value
      expires_above arrange no_date table two (λ rows h. refl) refl is_alive always 3 0 at_epoch
      (at_a, (at_b, (at_c, tt))) refl refl three
  where
    two : 1 ≤ 2
    two = omega arith

    three : 3 ≤ 3
    three = omega arith

-- A walk that begins when the window has moved has only the rows that it still shows.
later_walk :
    pull_documents encode digits parse ℕ fetch cfg (pos 0) 2 1 none 3 ≡ row "a" ∷ row "c" ∷ []
unfolding pull_documents pull_handler build_pull_url keyset_predicate normalize_checkpoint
later_walk = refl
