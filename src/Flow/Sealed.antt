-- ===== src/Flow/Sealed.antt =====
-- A page between two results whose session, if it has a result, requires to be online: sending an event
-- keeps it so, and records no offline override.
use mathlib.Core.Path.{subst}
use yumyums_purchase_orders.Common.{
  ◌≡◌, ◌≢◌, refl, sym, ap, ◌∙◌, String, Bool, true, false, ◌||◌, List, [], ◌∷◌, ◌++◌, Option, none,
  some, arith, if◌then◌else◌, any,
}
use yumyums_purchase_orders.Machine.{
  EventName, event_id, undeclared, unexpected, Event, Effect, submit_to_server, write_attempt,
  resolved, qr_decoded, srv_error,
}
use yumyums_purchase_orders.Machine.Engine.{Engine, Snapshot}
use yumyums_purchase_orders.Machine.Effects.{send-effects}
use yumyums_purchase_orders.Machine.Override.{is_write}
use yumyums_purchase_orders.Machine.Session.{carries_code}
use yumyums_purchase_orders.Machine.Runs.{Inv, IsSent, send-Inv}
use yumyums_purchase_orders.Machine.Held.{IsHeld, send-IsHeld, held_writes}
use yumyums_purchase_orders.Flow.{
  no_session, Page, Session, Output, redeem_request, attempt_row, plain, seq, send,
  do_online_submit, handle_effect, handle_effects, updated,
}

abbrev pub is_row : Output → Bool
is_row (redeem_request b) = false
is_row (attempt_row r) = true

-- The machine is sound, and its session, if it has a result, requires to be online.
abbrev pub Sealed : Page → Type 0
Sealed p = Inv p.machine × IsHeld p.machine

-- A page that is sealed, and sent out without an override.
abbrev pub Safe : Page × List Output → Type 0
Safe (p, out) = Sealed p × (any is_row out ≡ false)

any-append : (xs ys : List Output) → any is_row (xs ++ ys) ≡ (any is_row xs || any is_row ys)
any-append [] ys = refl
any-append (o ∷ xs) ys = ground (arith, any-append xs ys)

pub Safe-seq :
    (a : Page × List Output) (f : Page → Page × List Output)
    → Safe a
    → ((p : Page) → Sealed p → Safe (f p))
    → Safe (seq a f)
Safe-seq (p, out) f (s, o) g =
    let (s', o') = g p s in (s', any-append out (f p).1 ∙ ground (arith, o, o'))

pub Safe-if : (b : Bool) (y n : Page × List Output) → Safe y → Safe n → Safe (if b then y else n)
Safe-if true y n hy hn = hy
Safe-if false y n hy hn = hn

pub updated-machine : (s : Snapshot) (p : Page) → (updated s p).machine ≡ s
updated-machine s p = ground arith

pub updated-Sealed : (s : Snapshot) (p : Page) → Inv s → IsHeld s → Sealed (updated s p)
updated-Sealed s p i h =
    (subst Inv (sym (updated-machine s p)) i, subst IsHeld (sym (updated-machine s p)) h)

-- An event that the page sends while it waits for no result.
pub record IsPlain (e : Event) : Type 0 where
  pub sent : IsSent e
  pub known : e.type_name ≢ undeclared
  pub unresolved : e.type_name ≢ resolved

abbrev pub is_plain : EventName → Bool
is_plain undeclared = false
is_plain unexpected = false
is_plain resolved = false
is_plain qr_decoded = false
is_plain _ = true

plain_coded : (n : EventName) → is_plain n ≡ true → carries_code n (plain n) ≡ true
plain_coded qr_decoded h = ground (arith, h)
plain_coded _ h = refl

pub plain-IsPlain : (n : EventName) → is_plain n ≡ true → IsPlain (plain n)
plain-IsPlain n h = record {
  sent = record { external = λ e. ground (arith, h, ap is_plain e); coded = plain_coded n h };
  known = λ e. ground (arith, h, ap is_plain e);
  unresolved = λ e. ground (arith, h, ap is_plain e);
}

pub decoded-IsPlain : (h : String) → IsPlain (record (plain qr_decoded) { code = some h })
decoded-IsPlain h = record {
  sent = record { external = λ e. ground (arith, ap event_id e); coded = refl };
  known = λ e. ground (arith, ap event_id e);
  unresolved = λ e. ground (arith, ap event_id e);
}

module _ (x : Engine) where
  sent-Sealed :
      (e : Event) (p q : Page) → IsPlain e → Sealed p → Sealed (updated (x.send p.machine e).0 q)
  sent-Sealed e p q k (i, h) =
      updated-Sealed (x.send p.machine e).0 q (send-Inv x p.machine e k.sent i)
        (send-IsHeld x p.machine e k.known k.sent.external k.unresolved h)

  online-Safe : (o : Option Session) (p : Page) → Sealed p → Safe (do_online_submit x o p)
  online-Safe none p s = (
    sent-Sealed (plain srv_error) p (record p { submit_error = some no_session })
        (plain-IsPlain srv_error refl) s,
    refl,
  )
  online-Safe (some c) p s = (s, refl)

  handle_effect-Safe :
      (e : Effect) (p : Page) → is_write e ≡ false → Sealed p → Safe (handle_effect x e p)
  handle_effect-Safe (write_attempt o u) p w s = ground (arith, w)
  handle_effect-Safe submit_to_server p w s = online-Safe p.submit_ctx p s

  handle_effects-Safe :
      (es : List Effect) (p : Page)
      → any is_write es ≡ false
      → Sealed p
      → Safe (handle_effects x es p)
  handle_effects-Safe [] p w s = (s, refl)
  handle_effects-Safe (e ∷ es) p w s =
      Safe-seq (handle_effect x e p) (handle_effects x es)
        (handle_effect-Safe e p (ground (arith, w)) s)
        (λ q t. handle_effects-Safe es q (ground (arith, w)) t)

  pub send-Safe : (e : Event) (p : Page) → IsPlain e → Sealed p → Safe (send x e p)
  unfolding send
  send-Safe e p k (i, h) =
      handle_effects-Safe (x.send p.machine e).1.effects (updated (x.send p.machine e).0 p)
        (ap (any is_write) (send-effects x p.machine e k.known)
          ∙ held_writes p.machine.scan e.type_name p.machine.context i.sound h)
        (sent-Sealed e p p k (i, h))
