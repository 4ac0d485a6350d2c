-- ===== src/Sync/Ops/Catchup/Wire.antt =====
-- sync.js, `applyOp`: the format of an answer on the wire, and that the code reads it.
use yumyums_purchase_orders.Common.{
  String, ◌≡◌, refl, ap, Bool, Option, none, some, if◌then◌else◌, inl, inr, Bool-cases,
}
use yumyums_purchase_orders.Common.Int.{ℤ}
use yumyums_purchase_orders.Json.{
  Value, Fields, undefined, null, bool, num, str, obj, arr, get, has_own,
}
use yumyums_purchase_orders.Sync.Ops.{Answer, is_truthy}
use yumyums_purchase_orders.Sync.Ops.Apply.{answer_steps, answer_value, unwrap, spread}

module _ (indexed : Value → Fields) where
  -- The format of an answer on the wire. A bare answer is an object with a value, and sub-steps or
  -- none, or it is the value itself; a bundle holds a bare answer under `_v`.
  abbrev pub read_steps : Value → Option Fields
  read_steps (obj steps) = some steps
  read_steps v = if is_truthy v then some (indexed v) else none

  abbrev pub read_object : Value → Value → Fields → Value × Option Fields
  read_object undefined steps o = (obj o, none)
  read_object v steps o = (v, read_steps steps)

  abbrev pub read_bare : Value → Value × Option Fields
  read_bare (obj o) = read_object (get "value" o) (get "sub_steps" o) o
  read_bare v = (v, none)

  abbrev pub read_wire : Value → Value × Option Fields
  read_wire (obj o) = if has_own "_v" o then read_bare (get "_v" o) else read_bare (obj o)
  read_wire v = read_bare v

  -- What is on the wire, as an answer.
  abbrev pub wire_answer : String → String → Value → Answer
  wire_answer at name v = record {
    value = (read_wire v).0;
    sub_steps = (read_wire v).1;
    answered_by = name;
    answered_at = at;
  }

module _ (date : String → Option ℤ) (is_url : String → Bool) (indexed : Value → Fields) where
  steps-read :
      (v : Value)
      → (if is_truthy v then some (spread date is_url indexed v) else none) ≡ read_steps indexed v
  steps-read undefined = refl
  steps-read null = refl
  steps-read (bool b) = refl
  steps-read (num n) = refl
  steps-read (str t) = refl
  steps-read (obj o) = refl
  steps-read (arr vs) = refl

  object-read :
      (v : Value) (o : Fields)
      → get "value" o ≡ v
      → (answer_value date is_url indexed (obj o), answer_steps date is_url indexed (obj o))
        ≡ read_object indexed v (get "sub_steps" o) o
  object-read undefined o e = rw e refl
  object-read null o e = rw e (ap (λ s. (null, s)) (steps-read (get "sub_steps" o)))
  object-read (bool b) o e = rw e (ap (λ s. (bool b, s)) (steps-read (get "sub_steps" o)))
  object-read (num n) o e = rw e (ap (λ s. (num n, s)) (steps-read (get "sub_steps" o)))
  object-read (str t) o e = rw e (ap (λ s. (str t, s)) (steps-read (get "sub_steps" o)))
  object-read (obj f) o e = rw e (ap (λ s. (obj f, s)) (steps-read (get "sub_steps" o)))
  object-read (arr vs) o e = rw e (ap (λ s. (arr vs, s)) (steps-read (get "sub_steps" o)))

  bare-read :
      (a : Value)
      → (answer_value date is_url indexed a, answer_steps date is_url indexed a)
        ≡ read_bare indexed a
  bare-read undefined = refl
  bare-read null = refl
  bare-read (bool b) = refl
  bare-read (num n) = refl
  bare-read (str t) = refl
  bare-read (obj o) = object-read (get "value" o) o refl
  bare-read (arr vs) = refl

  -- The answer that `applyOp` stores where no sub-step is gated.
  abbrev pub stored_answer : String → String → Value → Answer
  stored_answer at name a = record {
    value = answer_value date is_url indexed a;
    sub_steps = answer_steps date is_url indexed a;
    answered_by = name;
    answered_at = at;
  }

  unwrap-read :
      (v : Value)
      → (
        answer_value date is_url indexed (unwrap date is_url indexed v),
        answer_steps date is_url indexed (unwrap date is_url indexed v),
      )
        ≡ read_wire indexed v
  unwrap-read undefined = refl
  unwrap-read null = refl
  unwrap-read (bool b) = refl
  unwrap-read (num n) = refl
  unwrap-read (str t) = refl
  unwrap-read (obj o) = elim (Bool-cases (has_own "_v" o)) [
    | inl y ↦ rw y (bare-read (get "_v" o))
    | inr n ↦ rw n (bare-read (obj o))
  ]
  unwrap-read (arr vs) = refl

  pub wire-read :
      (at name : String) (v : Value)
      → stored_answer at name (unwrap date is_url indexed v) ≡ wire_answer indexed at name v
  wire-read at name v =
      ap (λ r. record { value = r.0; sub_steps = r.1; answered_by = name; answered_at = at })
        (unwrap-read v)
