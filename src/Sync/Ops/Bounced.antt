-- ===== src/Sync/Ops/Bounced.antt =====
-- A rejected answer against operations that are older than the rejection: a field's own, and those
-- of a parent that carries it as a sub-step.
use yumyums_purchase_orders.Common.{
  String, ◌≡◌, refl, sym, ap, ◌∙◌, Bool, true, false, List, [], ◌∷◌, Option, none, some, arith,
  text_eq, text_cases, eq_iff, includes, inl, inr, Option-cases, Bool-cases, if◌then◌else◌,
}
use yumyums_purchase_orders.Common.Int.{ℤ}
use yumyums_purchase_orders.Json.{Value, Fields, end, field, keys, has_own, bool}
use yumyums_purchase_orders.Store.{lookup}
use yumyums_purchase_orders.Store.Keys.{lookup-remove_ne}
use yumyums_purchase_orders.Sync.Ops.{Answer, Flag, Page, clear_rejection_flag, drop_field}
use yumyums_purchase_orders.Sync.Ops.Apply.{
  is_bounced, gate_flag, gate_step, gate_steps, entry_of, answer_steps, answer_value,
}

has_own-drop_field :
    (k j : String) (o : Fields) → has_own j o ≡ false → has_own j (drop_field k o) ≡ false
has_own-drop_field k j end h = refl
has_own-drop_field k j (field i v o) h = ground (arith, h, has_own-drop_field k j o)

has_own-drop_field_self : (k : String) (o : Fields) → has_own k (drop_field k o) ≡ false
has_own-drop_field_self k end = refl
has_own-drop_field_self k (field i v o) = ground (arith, has_own-drop_field_self k o)

has_own-keys : (k : String) (o : Fields) → has_own k o ≡ includes (keys o) k
has_own-keys k end = refl
has_own-keys k (field i v o) = ground (arith, has_own-keys k o)

pub clear_rejection_flag-flags :
    (is_url : String → Bool) (f j : String) (p : Page)
    → text_eq f j ≡ false
    → lookup j (clear_rejection_flag is_url f p).flags ≡ lookup j p.flags
unfolding clear_rejection_flag
clear_rejection_flag-flags is_url f j p d = ground (arith, lookup-remove_ne f j p.flags d)

-- An answer that carries a sub-step.
abbrev pub carries : String → Option Answer → Bool
carries f none = false
carries f (some a) = elim a.sub_steps [ none ↦ false | some steps ↦ has_own f steps ]

module _ (date : String → Option ℤ) (is_url : String → Bool) (indexed : Value → Fields) where
  gate_flag-absent :
      (at sid : String) (o : Option Flag) (steps : Fields) (v : Value) (p : Page) (f : String)
      → has_own f steps ≡ false
      → has_own f (gate_flag date is_url indexed at sid o (steps, (v, p))).0 ≡ false
  unfolding gate_flag
  gate_flag-absent at sid none steps v p f h = h
  gate_flag-absent at sid (some flag) steps v p f h =
      ground (arith, h, has_own-drop_field sid f steps)

  gate_flag-flags :
      (at sid : String) (o : Option Flag) (steps : Fields) (v : Value) (p : Page) (f : String)
      → text_eq sid f ≡ false
      → lookup f (gate_flag date is_url indexed at sid o (steps, (v, p))).1.1.flags
        ≡ lookup f p.flags
  unfolding gate_flag
  gate_flag-flags at sid none steps v p f d = refl
  gate_flag-flags at sid (some flag) steps v p f d =
      ground (arith, d, clear_rejection_flag-flags is_url sid f p d)

  module _ (f at : String) (flag : Flag)
      (late : is_bounced date is_url indexed at flag ≡ true) where
    gate_flag-late :
        (steps : Fields) (v : Value) (p : Page)
        → gate_flag date is_url indexed at f (some flag) (steps, (v, p))
          ≡ (drop_field f steps, (bool false, p))
    unfolding gate_flag
    gate_flag-late steps v p =
        ap
          (λ b.
            if b
            then (drop_field f steps, (bool false, p))
            else (steps, (v, clear_rejection_flag is_url f p)))
          late

    gate_step-flags :
        (sid : String) (steps : Fields) (v : Value) (p : Page)
        → lookup f p.flags ≡ some flag
        → lookup f (gate_step date is_url indexed at sid (steps, (v, p))).1.1.flags ≡ some flag
    unfolding gate_step
    gate_step-flags sid steps v p h = elim (text_cases sid f) [
      | inl e ↦
          ap
            (λ s.
              lookup f
                (gate_flag date is_url indexed at s (lookup s p.flags) (steps, (v, p))).1.1.flags)
            e
          ∙ (ap (λ o. lookup f (gate_flag date is_url indexed at f o (steps, (v, p))).1.1.flags) h
              ∙ (ap (λ r. lookup f r.1.1.flags) (gate_flag-late steps v p) ∙ h))
      | inr d ↦ gate_flag-flags at sid (lookup sid p.flags) steps v p f d ∙ h
    ]

    gate_step_self :
        (sid : String) (steps : Fields) (v : Value) (p : Page)
        → lookup f p.flags ≡ some flag
        → text_eq sid f ≡ true
        → has_own f (gate_step date is_url indexed at sid (steps, (v, p))).0 ≡ false
    unfolding gate_step
    gate_step_self sid steps v p h e =
        ap
          (λ s. has_own f (gate_flag date is_url indexed at s (lookup s p.flags) (steps, (v, p))).0)
          ((eq_iff sid f).0 e)
        ∙ (ap (λ o. has_own f (gate_flag date is_url indexed at f o (steps, (v, p))).0) h
            ∙ (ap (λ r. has_own f r.0) (gate_flag-late steps v p)
                ∙ has_own-drop_field_self f steps))

    -- The loop keeps the flag, and a step of its name does not outlive it.
    gate_steps-flags :
        (sids : List String) (steps : Fields) (v : Value) (p : Page)
        → lookup f p.flags ≡ some flag
        → lookup f (gate_steps date is_url indexed at sids (steps, (v, p))).1.1.flags ≡ some flag
    unfolding gate_steps
    gate_steps-flags [] steps v p h = h
    gate_steps-flags (sid ∷ sids) steps v p h =
        let (next, (w, q)) = gate_step date is_url indexed at sid (steps, (v, p)) in
        gate_steps-flags sids next w q (gate_step-flags sid steps v p h)

    gate_steps-absent :
        (sids : List String) (steps : Fields) (v : Value) (p : Page)
        → has_own f steps ≡ false
        → has_own f (gate_steps date is_url indexed at sids (steps, (v, p))).0 ≡ false
    unfolding gate_steps gate_step
    gate_steps-absent [] steps v p h = h
    gate_steps-absent (sid ∷ sids) steps v p h =
        let (next, (w, q)) = gate_step date is_url indexed at sid (steps, (v, p)) in
        gate_steps-absent sids next w q (gate_flag-absent at sid (lookup sid p.flags) steps v p f h)

    gate_steps-strip :
        (sids : List String) (steps : Fields) (v : Value) (p : Page)
        → lookup f p.flags ≡ some flag
        → includes sids f ≡ true
        → has_own f (gate_steps date is_url indexed at sids (steps, (v, p))).0 ≡ false
    unfolding gate_steps
    gate_steps-strip [] steps v p h i = ground (arith, i)
    gate_steps-strip (sid ∷ sids) steps v p h i =
        let (next, (w, q)) = gate_step date is_url indexed at sid (steps, (v, p)) in
        elim (Bool-cases (text_eq sid f)) [
          | inl e ↦ gate_steps-absent sids next w q (gate_step_self sid steps v p h e)
          | inr d ↦
              gate_steps-strip sids next w q (gate_step-flags sid steps v p h)
                (ground (arith, d, i))
        ]

    -- The entry that is stored has no step of that name, and the flag stays.
    pub entry_of-bounced :
        (name : String) (a : Value) (p : Page)
        → lookup f p.flags ≡ some flag
        → (carries f (some (entry_of date is_url indexed at name a p).0) ≡ false)
          × (lookup f (entry_of date is_url indexed at name a p).1.flags ≡ some flag)
    unfolding entry_of
    entry_of-bounced name a p h = elim (Option-cases (answer_steps date is_url indexed a)) [
      | inl e ↦ rw (e, entry_of) (refl, h)
      | inr (steps, e) ↦
          rw (e, entry_of)
            (
              elim (Bool-cases (has_own f steps)) [
                | inl i ↦
                    gate_steps-strip (keys steps) steps (answer_value date is_url indexed a) p h
                      (sym (has_own-keys f steps) ∙ i)
                | inr n ↦
                    gate_steps-absent (keys steps) steps (answer_value date is_url indexed a) p n
              ],
              gate_steps-flags (keys steps) steps (answer_value date is_url indexed a) p h,
            )
    ]
