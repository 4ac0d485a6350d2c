-- ===== src/Machine/Override.antt =====
-- The offline override: whose it is, and what a run can write.
use yumyums_purchase_orders.Common.{
  ◌∙◌, ◌≡◌, refl, Bool, true, false, ◌||◌, List, [], ◌∷◌, ◌++◌, arith, any, Bool-cases, inl, inr,
}
use yumyums_purchase_orders.Machine.{
  undeclared, ScanState, override_confirm_state, Event, Context, Effect, submit_to_server,
  write_attempt,
}
use yumyums_purchase_orders.Machine.Engine.{Snapshot, Engine, initial}
use yumyums_purchase_orders.Machine.Strict.{send-alphabet}
use yumyums_purchase_orders.Machine.Trip.{send-undeclared}
use yumyums_purchase_orders.Machine.Session.{SoundHere}
use yumyums_purchase_orders.Machine.Effects.{effects_of, send-effects}
use yumyums_purchase_orders.Machine.Runs.{
  Inv, IsSent, send-Inv, context_mirrors, dec_event, initial-Inv,
}

abbrev pub is_write : Effect → Bool
is_write submit_to_server = false
is_write (write_attempt o u) = true

-- A run: the events in order, with the effects pushed.
unfoldable pub run : Engine → Snapshot → List Event → Snapshot × List Effect
run x s [] = (s, [])
run x s (e ∷ es) = let (s', l) = x.send s e in let (s'', fs) = run x s' es in (s'', l.effects ++ fs)

abbrev pub AllSent : List Event → Type 0
AllSent [] = Unit
AllSent (e ∷ es) = IsSent e × AllSent es

can_override-send :
    (x : Engine) (s : Snapshot) (e : Event)
    → Inv s
    → (x.send s e).0.context.can_override ≡ s.context.can_override
can_override-send x s e inv = elim (dec_event e.type_name undeclared) [
  | yes h ↦ rw (send-undeclared x s e inv.mirrored h).0
  | no h ↦ rw (send-alphabet x s e h) (context_mirrors s.scan e.type_name s.context e h).3
]

write_here :
    (q : ScanState) (e : Event) (c : Context)
    → SoundHere q c
    → any is_write (effects_of q e.type_name c) ≡ true
    → (c.can_override ≡ true) × (c.requires_online ≡ false)
write_here override_confirm_state e c w h = (w.2, w.3)
write_here _ e c w h = ground arith

-- An attempt is written past the server only by a device that holds the override permission, for a
-- campaign that does not require to be online.
pub send-write_attempt :
    (x : Engine) (s : Snapshot) (e : Event)
    → Inv s
    → any is_write (x.send s e).1.effects ≡ true
    → (s.context.can_override ≡ true) × (s.context.requires_online ≡ false)
send-write_attempt x s e inv h = elim (dec_event e.type_name undeclared) [
  | yes u ↦ ground (arith, send-undeclared x s e inv.mirrored u)
  | no k ↦ write_here s.scan e s.context inv.sound (rw (send-effects x s e k) at h)
]

any-append : (xs ys : List Effect) → any is_write (xs ++ ys) ≡ (any is_write xs || any is_write ys)
any-append [] ys = refl
any-append (x ∷ xs) ys = ground (arith, any-append xs ys)

run-no_write :
    (x : Engine) (s : Snapshot) (es : List Event)
    → Inv s
    → s.context.can_override ≡ false
    → AllSent es
    → any is_write (run x s es).1 ≡ false
unfolding run
run-no_write x s [] inv n a = refl
run-no_write x s (e ∷ es) inv n a =
    let (s', l) = x.send s e in
    let later =
      run-no_write x s' es (send-Inv x s e a.0 inv) (can_override-send x s e inv ∙ n) a.1 in
    elim (Bool-cases (any is_write l.effects)) [
      | inl y ↦ ground (arith, send-write_attempt x s e inv y)
      | inr m ↦ rw (any-append l.effects (run x s' es).1, m, later)
    ]

-- On a device without the permission no run of events from the start ever writes an attempt.
pub run-needs_permission :
    (x : Engine) (es : List Event) → AllSent es → any is_write (run x (initial false) es).1 ≡ false
run-needs_permission x es a = run-no_write x (initial false) es (initial-Inv false) refl a
