-- ===== src/Boot/Runs.antt =====
-- Runs of the registry of replications: cancelled once, and cancelled twice.
use yumyums_purchase_orders.Common.{
  ℕ, ◌+◌, String, ◌≡◌, ◌≢◌, refl, sym, ap, ◌∙◌, Bool, true, false, ◌&&◌, List, [], ◌∷◌, none, some,
  arith, ==_iff, if◌then◌else◌, inl, inr, Option-cases,
}
use mathlib.Core.Path.{subst}
use yumyums_purchase_orders.Store.{lookup, write, remove}
use yumyums_purchase_orders.Store.Keys.{lookup-write_self, lookup-remove_self}
use yumyums_purchase_orders.Boot.{
  Phase, pending, running, cancelled, rejected, is_live, Handle, Registry, new_registry, put_handle,
  open_scope, Event, opens, resolves, rejects, cancels, settle, cancel, event_of, happen, happens,
}
use yumyums_purchase_orders.Boot.Single.{
  Inv, at_put, handle_eq, none_some, new_registry-Inv, open_scope-Inv,
}
use yumyums_purchase_orders.Boot.Ends.{settle-Inv, retire-Inv, is_first}

abbrev pub are_first : List Event → Registry → Bool
are_first [] r = true
are_first (e ∷ es) r = let rest = are_first es (happen e r) in is_first e r && rest

settled :
    (ok : Bool) (i : ℕ) (h : Handle) (r : Registry) (q : Phase)
    → r.handles i ≡ some h
    → h.phase ≡ q
    → Inv r
    → Inv (elim q [ pending ↦ settle ok i h r | _ ↦ r ])
settled ok i h r pending here at v = settle-Inv ok i h r here at v
settled ok i h r running here at v = v
settled ok i h r cancelled here at v = v
settled ok i h r rejected here at v = v

ended :
    (i : ℕ) (h : Handle) (r : Registry) (q : Phase)
    → r.handles i ≡ some h
    → h.phase ≡ q
    → elim q [ cancelled ↦ false | _ ↦ true ] ≡ true
    → Inv r
    → Inv (elim q [ running ↦ cancel i h r | cancelled ↦ cancel i h r | _ ↦ r ])
ended i h r pending here at first v = v
ended i h r running here at first v = retire-Inv i h cancelled r here (ap is_live at) refl v
ended i h r cancelled here at first v = absurd (off first)
  where
    off : false ≡ true → ⊥
    off e = ground (arith, e)
ended i h r rejected here at first v = v

happen-Inv : (e : Event) (r : Registry) → is_first e r ≡ true → Inv r → Inv (happen e r)
unfolding happen
happen-Inv (opens key) r first v = open_scope-Inv key r v
happen-Inv (resolves i) r first v = elim (Option-cases (r.handles i)) [
  | inl n ↦ subst (λ o. Inv (event_of (resolves i) o r)) (sym n) v
  | inr (h, here) ↦
      subst (λ o. Inv (event_of (resolves i) o r)) (sym here)
        (settled true i h r h.phase here refl v)
]
happen-Inv (rejects i) r first v = elim (Option-cases (r.handles i)) [
  | inl n ↦ subst (λ o. Inv (event_of (rejects i) o r)) (sym n) v
  | inr (h, here) ↦
      subst (λ o. Inv (event_of (rejects i) o r)) (sym here)
        (settled false i h r h.phase here refl v)
]
happen-Inv (cancels i) r first v = elim (Option-cases (r.handles i)) [
  | inl n ↦ subst (λ o. Inv (event_of (cancels i) o r)) (sym n) v
  | inr (h, here) ↦
      subst (λ o. Inv (event_of (cancels i) o r)) (sym here)
        (ended i h r h.phase here refl
          (sym (
              ap
                (λ o. elim o [
                  | none ↦ true
                  | some x ↦ elim x.phase [ cancelled ↦ false | _ ↦ true ]
                ])
                here)
            ∙ first)
          v)
]

pub happens-Inv :
    (es : List Event) (r : Registry) → are_first es r ≡ true → Inv r → Inv (happens es r)
happens-Inv [] r first v = v
happens-Inv (e ∷ es) r first v =
    happens-Inv es (happen e r) (ground (arith, first)) (happen-Inv e r (ground (arith, first)) v)

opened_under :
    (k : String) (r : Registry) → lookup k (open_scope k r).0.open_scopes ≡ some (open_scope k r).1
unfolding open_scope
opened_under k r = elim (Option-cases (lookup k r.open_scopes)) [
  | inl n ↦ rw (n, open_scope) (lookup-write_self k r.next r.open_scopes)
  | inr (i, e) ↦ rw (e, open_scope) e
]

-- In every run in which no handle is cancelled twice, whichever starts fail and in whatever order they
-- end, one replication at most is live for a key, and opening the key gives a live handle of that
-- key: the one that is there, or a new one, never one whose start failed.
pub happens-single :
    (es : List Event) (key : String)
    → are_first es new_registry ≡ true
    → let r = happens es new_registry in
      ((i j : ℕ) (h g : Handle)
        → r.handles i ≡ some h
        → r.handles j ≡ some g
        → is_live h.phase ≡ true
        → is_live g.phase ≡ true
        → h.key ≡ g.key
        → i ≡ j)
      × ((h : Handle) × (((open_scope key r).0.handles (open_scope key r).1 ≡ some h)
            × ((h.key ≡ key) × (is_live h.phase ≡ true))))
happens-single es key first =
    let r = happens es new_registry in
    let v = happens-Inv es new_registry first new_registry-Inv in
    let w = open_scope-Inv key r v in
    (
      λ i j h g here there live_h live_g same. number_of i j (
          sym (v.live i h here live_h)
          ∙ (ap (λ k. lookup k r.open_scopes) same ∙ v.live j g there live_g)),
      w.entry key (open_scope key r).1 (opened_under key r),
    )
  where
    number_of : (i j : ℕ) → some i ≡ some j → i ≡ j
    number_of i j e = ap (λ o. elim o [ none ↦ i | some x ↦ x ]) e

open_scope_new :
    (k : String) (q : Registry)
    → lookup k q.open_scopes ≡ none
    → open_scope k q ≡ (
      put_handle q.next
          (record { key = k; phase = pending })
          (record q { open_scopes = write k q.next q.open_scopes; next = q.next + 1 }),
      q.next,
    )
unfolding open_scope
open_scope_new k q n = rw (n, open_scope) refl

-- A handle that is put elsewhere is not seen.
skip : (n j : ℕ) (x : Handle) (q : Registry) → j ≢ n → (put_handle n x q).handles j ≡ q.handles j
skip n j x q d = elim (at_put n j x q) [ inl (e, put) ↦ absurd (d e) | inr (e, put) ↦ put ]

-- In a registry that keeps the invariant, a handle that is cancelled a second time takes away the key of
-- another that is running under it: opening the key again then starts a second replication of one
-- scope, under a new number, while the first one runs.
pub happen-rival :
    (c i : ℕ) (h g : Handle) (r : Registry)
    → Inv r
    → r.handles c ≡ some h
    → h.phase ≡ cancelled
    → r.handles i ≡ some g
    → g.phase ≡ running
    → g.key ≡ h.key
    → let after = happen (opens h.key) (happen (cancels c) r) in
      (after.handles i ≡ some g)
      × ((after.handles r.next ≡ some (record { key = h.key; phase = pending })) × (i ≢ r.next))
unfolding happen
happen-rival c i h g r v here was there runs same =
    let after = put_handle r.next made taken in
    let closed : happen (cancels c) r ≡ cancel c h r =
      ap (λ o. event_of (cancels c) o r) here
      ∙ ap (λ q. elim q [ running ↦ cancel c h r | cancelled ↦ cancel c h r | _ ↦ r ]) was in
    let opened : happen (opens h.key) (happen (cancels c) r) ≡ after =
      ap (λ q. (open_scope h.key q).0) closed
      ∙ ap (λ q. q.0)
          (open_scope_new h.key (cancel c h r) (lookup-remove_self h.key r.open_scopes)) in
    let new : i ≢ r.next = λ e. none_some g (sym (v.fresh i (omega (arith, e))) ∙ there) in
    let old : i ≢ c = λ e. differ (
      sym runs
      ∙ (ap (λ x. x.phase) (handle_eq g h (sym there ∙ (ap (λ n. r.handles n) e ∙ here))) ∙ was)) in
    subst (λ q. (q.handles i ≡ some g) × ((q.handles r.next ≡ some made) × (i ≢ r.next)))
      (sym opened)
      (
        skip r.next i made taken new ∙ (skip c i (record h { phase = cancelled }) r old ∙ there),
        (at_itself, new),
      )
  where
    made : Handle
    made = record { key = h.key; phase = pending }

    taken : Registry
    taken = record (cancel c h r) {
      open_scopes = write h.key r.next (remove h.key r.open_scopes);
      next = r.next + 1;
    }

    differ : running ≡ cancelled → ⊥
    differ e = ground (arith, e)

    at_itself : (put_handle r.next made taken).handles r.next ≡ some made
    at_itself =
        ap (λ b. if b then some made else taken.handles r.next) ((==_iff r.next r.next).1 refl)
