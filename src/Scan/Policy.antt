-- ===== src/Scan/Policy.antt =====
-- marketing/sync/replicas.js, `createCampaignPolicySource`: which campaigns require to be online, as
-- the campaigns replica delivers them. What RxDB calls it back with is a list of events.
use yumyums_purchase_orders.Common.{
  String, ◌≡◌, refl, sym, ap, ◌∙◌, Bool, true, false, not, ◌&&◌, ◌||◌, List, [], ◌∷◌, Option, none,
  some, arith, if◌then◌else◌, text_eq, any,
}

pub record Campaign : Type 0 where
  pub id : String
  pub requires_online : Bool

pub record Source : Type 0 where
  pub by_id : List (String × Bool)
  pub attached : Bool
  pub ready : Bool
  pub last_error : Option String

pub record Policy : Type 0 where
  pub requires_online : Bool
  pub unresolved : Bool

-- The subscriptions' callbacks: the collection's documents, the call of `attach`, an error and a
-- successful pull of the replication, and the end of the initial replication with its settle tick.
pub data Happens : Type 0 where
  documents : List Campaign → Happens
  attaching : Happens
  failed : String → Happens
  pulled : Happens
  settled : Happens

-- A new source.
abbrev pub create_campaign_policy_source : Source
create_campaign_policy_source = record {
  by_id = [];
  attached = false;
  ready = false;
  last_error = none;
}

-- `byId.set`, on a map of which the last entry of a key counts.
abbrev pub set_all : List Campaign → List (String × Bool) → List (String × Bool)
set_all [] m = m
set_all (c ∷ cs) m = set_all cs ((c.id, c.requires_online) ∷ m)

abbrev pub lookup : String → List (String × Bool) → Option Bool
lookup k [] = none
lookup k ((j, v) ∷ m) = if text_eq j k then some v else lookup k m

-- One callback; those of the replication come only when it is attached.
unfoldable pub happen : Happens → Source → Source
happen (documents cs) s = record s { by_id = set_all cs [] }
happen attaching s = record s { attached = true }
happen (failed e) s = if s.attached then record s { last_error = some e } else s
happen pulled s = if s.attached then record s { last_error = none } else s
happen settled s = if s.attached then record s { ready = true; last_error = none } else s

-- `policyFor`.
unfoldable pub policy_for : Source → Option String → Option Policy
policy_for s none = none
policy_for s (some id) =
    if text_eq id ""
    then none
    else some (elim (lookup id s.by_id) [
      | some flag ↦ record { requires_online = flag; unresolved = false }
      | none ↦ record { requires_online = true; unresolved = true }
    ])

abbrev pub is_error : Option String → Bool
is_error none = false
is_error (some e) = true

-- `unresolved`.
unfoldable pub unresolved : Source → Bool
unresolved s = s.attached && (not s.ready || is_error s.last_error)

unfoldable pub after : List Happens → Source → Source
unfolding happen
after [] s = s
after (h ∷ hs) s = after hs (happen h s)

-- The documents that were delivered last, and whether one of them says that the campaign needs no
-- connection.
abbrev pub delivered : List Happens → List Campaign → List Campaign
delivered [] cs = cs
delivered (documents ds ∷ hs) cs = delivered hs ds
delivered (_ ∷ hs) cs = delivered hs cs

abbrev pub is_relaxed : String → List Campaign → Bool
is_relaxed k [] = false
is_relaxed k (c ∷ cs) = text_eq c.id k && not c.requires_online || is_relaxed k cs

abbrev is_relaxed_in : String → List (String × Bool) → Bool
is_relaxed_in k [] = false
is_relaxed_in k ((j, v) ∷ m) = text_eq j k && not v || is_relaxed_in k m

lookup-is_relaxed :
    (k : String) (m : List (String × Bool)) → lookup k m ≡ some false → is_relaxed_in k m ≡ true
lookup-is_relaxed k [] h = ground (arith, h)
lookup-is_relaxed k ((j, v) ∷ m) h = ground (arith, h, lookup-is_relaxed k m)

set_all-is_relaxed :
    (k : String) (cs : List Campaign) (m : List (String × Bool))
    → is_relaxed_in k (set_all cs m) ≡ (is_relaxed k cs || is_relaxed_in k m)
set_all-is_relaxed k [] m = refl
set_all-is_relaxed k (c ∷ cs) m =
    ground (arith, set_all-is_relaxed k cs ((c.id, c.requires_online) ∷ m))

after-by_id :
    (hs : List Happens) (s : Source) (cs : List Campaign)
    → s.by_id ≡ set_all cs []
    → (after hs s).by_id ≡ set_all (delivered hs cs) []
unfolding after
after-by_id [] s cs h = h
after-by_id (documents ds ∷ hs) s cs h = after-by_id hs (happen (documents ds) s) ds refl
after-by_id (attaching ∷ hs) s cs h = after-by_id hs (happen attaching s) cs h
after-by_id (failed e ∷ hs) s cs h = after-by_id hs (happen (failed e) s) cs (ground (arith, h))
after-by_id (pulled ∷ hs) s cs h = after-by_id hs (happen pulled s) cs (ground (arith, h))
after-by_id (settled ∷ hs) s cs h = after-by_id hs (happen settled s) cs (ground (arith, h))

-- Whether a policy lets the campaign do without a connection.
abbrev pub relaxes : Option Policy → Bool
relaxes none = false
relaxes (some p) = not p.requires_online

-- A campaign is held to need no connection only on its own word: after any callbacks, in any order,
-- the source's policy for a campaign that a code names is relaxed only if the documents that
-- the replica delivered last hold that campaign with `requires_online` false.
pub policy_for-relaxes :
    (hs : List Happens) (id : String)
    → relaxes (policy_for (after hs create_campaign_policy_source) (some id)) ≡ true
    → is_relaxed id (delivered hs []) ≡ true
unfolding policy_for
policy_for-relaxes hs id h =
    let kept = after-by_id hs create_campaign_policy_source [] refl in
    let found : lookup id (after hs create_campaign_policy_source).by_id ≡ some false =
      ground (arith, h) in
    let relaxed =
      lookup-is_relaxed id (set_all (delivered hs []) []) (sym (ap (lookup id) kept) ∙ found) in
    ground (arith, relaxed, set_all-is_relaxed id (delivered hs []) [])

abbrev pub is_failure : Happens → Bool
is_failure (failed e) = true
is_failure _ = false

abbrev pub is_recovery : Happens → Bool
is_recovery pulled = true
is_recovery settled = true
is_recovery _ = false

stays_resolved :
    (hs : List Happens) (s : Source)
    → any is_failure hs ≡ false
    → s.ready ≡ true
    → s.last_error ≡ none
    → unresolved (after hs s) ≡ false
unfolding unresolved after
stays_resolved [] s f r e = rw (r, e) (ground arith)
stays_resolved (documents ds ∷ hs) s f r e = stays_resolved hs (happen (documents ds) s) f r e
stays_resolved (attaching ∷ hs) s f r e = stays_resolved hs (happen attaching s) f r e
stays_resolved (failed x ∷ hs) s f r e = ground (arith, f)
stays_resolved (pulled ∷ hs) s f r e =
    stays_resolved hs (happen pulled s) f (ground (arith, r)) (ground (arith, e))
stays_resolved (settled ∷ hs) s f r e =
    stays_resolved hs (happen settled s) f (ground (arith, r)) (ground (arith, e))

stays_failed :
    (hs : List Happens) (s : Source)
    → any is_recovery hs ≡ false
    → s.attached ≡ true
    → is_error s.last_error ≡ true
    → unresolved (after hs s) ≡ true
unfolding unresolved after
stays_failed [] s f a e = ground (arith, a, e)
stays_failed (documents ds ∷ hs) s f a e = stays_failed hs (happen (documents ds) s) f a e
stays_failed (attaching ∷ hs) s f a e = stays_failed hs (happen attaching s) f refl e
stays_failed (failed x ∷ hs) s f a e =
    stays_failed hs (happen (failed x) s) f (ground (arith, a)) (ground (arith, a))
stays_failed (pulled ∷ hs) s f a e = ground (arith, f)
stays_failed (settled ∷ hs) s f a e = ground (arith, f)

-- The latch of an attached source: once the initial replication has settled it reads as resolved for
-- as long as no error comes, and after an error it reads as unresolved until a pull
-- succeeds or the initial replication settles, whatever documents come between.
pub unresolved-latch :
    (hs : List Happens) (s : Source)
    → s.attached ≡ true
    → (any is_failure hs ≡ false → unresolved (after hs (happen settled s)) ≡ false)
      × ((e : String)
          → any is_recovery hs ≡ false
          → unresolved (after hs (happen (failed e) s)) ≡ true)
unfolding happen
unresolved-latch hs s a = (
  λ f. stays_resolved hs (happen settled s) f (ground (arith, a)) (ground (arith, a)),
  λ e f. stays_failed hs (happen (failed e) s) f (ground (arith, a)) (ground (arith, a)),
)
