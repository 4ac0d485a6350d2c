-- ===== src/Sync/Ops/Frame.antt =====
-- `applyOp`: what its parts leave alone.
use yumyums_purchase_orders.Common.{
  String, ◌≡◌, refl, ◌∙◌, Bool, true, false, List, [], ◌∷◌, Option, none, some, arith, inl, inr,
  Option-cases, ap, if◌then◌else◌, ◌&&◌,
}
use yumyums_purchase_orders.Common.Int.{ℤ}
use yumyums_purchase_orders.Json.{Value, Fields, keys}
use yumyums_purchase_orders.Store.{lookup, write}
use yumyums_purchase_orders.Sync.Ops.{
  Answer, Page, clear_rejection_flag, Flag, is_truthy, is_bundle, prop,
}
use yumyums_purchase_orders.Sync.Ops.Apply.{
  gate_flag, gate_step, gate_steps, entry_of, take_photo, take_note, answer, store_entry, clear_own,
  answer_steps, answer_value, unwrap,
}

-- All but the flags is the same.
pub record SameButFlags (p q : Page) : Type 0 where
  pub responses : p.responses ≡ q.responses
  pub drafts : p.drafts ≡ q.drafts
  pub fail_notes : p.fail_notes ≡ q.fail_notes
  pub photos : p.photos ≡ q.photos
  pub runner : p.runner ≡ q.runner

-- The answers, the drafts, the flags and the runner are the same.
pub record SameAnswers (p q : Page) : Type 0 where
  pub responses : p.responses ≡ q.responses
  pub drafts : p.drafts ≡ q.drafts
  pub flags : p.flags ≡ q.flags
  pub runner : p.runner ≡ q.runner

kept_if :
    (b : Bool) (q r p : Page)
    → SameAnswers q p
    → SameAnswers r p
    → SameAnswers (if b then q else r) p
kept_if true q r p s t = s
kept_if false q r p s t = t

kept_trans : {p q r : Page} → SameAnswers p q → SameAnswers q r → SameAnswers p r
kept_trans s t = record {
  responses = s.responses ∙ t.responses;
  drafts = s.drafts ∙ t.drafts;
  flags = s.flags ∙ t.flags;
  runner = s.runner ∙ t.runner;
}

abbrev same : (p : Page) → SameButFlags p p
same p = record { responses = refl; drafts = refl; fail_notes = refl; photos = refl; runner = refl }

pub same_trans : {p q r : Page} → SameButFlags p q → SameButFlags q r → SameButFlags p r
same_trans s t = record {
  responses = s.responses ∙ t.responses;
  drafts = s.drafts ∙ t.drafts;
  fail_notes = s.fail_notes ∙ t.fail_notes;
  photos = s.photos ∙ t.photos;
  runner = s.runner ∙ t.runner;
}

pub clear_rejection_flag-same :
    (is_url : String → Bool) (f : String) (p : Page)
    → SameButFlags (clear_rejection_flag is_url f p) p
unfolding clear_rejection_flag
clear_rejection_flag-same is_url f p = ground arith

module _ (date : String → Option ℤ) (is_url : String → Bool) (indexed : Value → Fields) where
  gate_flag-same :
      (at sid : String) (flag : Option Flag) (steps : Fields) (v : Value) (p : Page)
      → SameButFlags (gate_flag date is_url indexed at sid flag (steps, (v, p))).1.1 p
  unfolding gate_flag
  gate_flag-same at sid none steps v p = same p
  gate_flag-same at sid (some flag) steps v p =
      ground (arith, clear_rejection_flag-same is_url sid p)

  pub gate_step-same :
      (at sid : String) (steps : Fields) (v : Value) (p : Page)
      → SameButFlags (gate_step date is_url indexed at sid (steps, (v, p))).1.1 p
  unfolding gate_step
  gate_step-same at sid steps v p = gate_flag-same at sid (lookup sid p.flags) steps v p

  pub gate_steps-same :
      (at : String) (sids : List String) (steps : Fields) (v : Value) (p : Page)
      → SameButFlags (gate_steps date is_url indexed at sids (steps, (v, p))).1.1 p
  unfolding gate_steps
  gate_steps-same at [] steps v p = same p
  gate_steps-same at (sid ∷ sids) steps v p =
      same_trans (gate_steps-same at sids _ _ _) (gate_step-same at sid steps v p)

  pub entry_of-same :
      (at name : String) (a : Value) (p : Page)
      → SameButFlags (entry_of date is_url indexed at name a p).1 p
  unfolding entry_of
  entry_of-same at name a p = elim (Option-cases (answer_steps date is_url indexed a)) [
    | inl e ↦ rw (e, entry_of) (same p)
    | inr (steps, e) ↦
        rw (e, entry_of)
          (gate_steps-same at (keys steps) steps (answer_value date is_url indexed a) p)
  ]

  -- The page that the gate of the sub-steps reads.
  abbrev pub prepared : String → Value → Page → Page
  prepared f v p = take_note date is_url indexed f v (take_photo date is_url indexed f v p)

  pub prepared-kept : (f : String) (v : Value) (p : Page) → SameAnswers (prepared f v p) p
  unfolding take_note take_photo
  prepared-kept f v p =
      kept_trans
        (kept_if (is_truthy (prop "_fail_note" v)) _ _ _
          (record { responses = refl; drafts = refl; flags = refl; runner = refl })
          (record { responses = refl; drafts = refl; flags = refl; runner = refl }))
        (kept_if (is_bundle v && is_truthy (prop "_correction_photo" v)) _ _ _
          (record { responses = refl; drafts = refl; flags = refl; runner = refl })
          (record { responses = refl; drafts = refl; flags = refl; runner = refl }))

  -- The entry that `answer` stores.
  abbrev pub stored_entry : String → Value → String → String → Page → Answer
  stored_entry f v name at p =
      (entry_of date is_url indexed at name (unwrap date is_url indexed v) (prepared f v p)).0

  pub store_entry-responses :
      (f : String) (v : Value) (name at : String) (p : Page)
      → (store_entry date is_url indexed f v name at p).responses
        ≡ write f (stored_entry f v name at p) p.responses
  unfolding store_entry
  store_entry-responses f v name at p =
      let gated = entry_of-same at name (unwrap date is_url indexed v) (prepared f v p) in
      let same_map = gated.responses ∙ (prepared-kept f v p).responses in
      ap (λ m. write f (stored_entry f v name at p) m) same_map

  store_entry-runner :
      (f : String) (v : Value) (name at : String) (p : Page)
      → (store_entry date is_url indexed f v name at p).runner ≡ p.runner
  unfolding store_entry
  store_entry-runner f v name at p =
      (entry_of-same at name (unwrap date is_url indexed v) (prepared f v p)).runner
      ∙ (prepared-kept f v p).runner

  pub clear_own-same :
      (flag : Option Flag) (f : String) (p : Page)
      → SameButFlags (clear_own date is_url indexed flag f p) p
  clear_own-same none f p = same p
  clear_own-same (some flag) f p = clear_rejection_flag-same is_url f p

  pub answer-responses :
      (f : String) (v : Value) (name at : String) (p : Page)
      → (answer date is_url indexed f v name at p).0.responses
        ≡ write f (stored_entry f v name at p) p.responses
  unfolding answer
  answer-responses f v name at p =
      (clear_own-same (lookup f p.flags) f
        (store_entry date is_url indexed f v name at p)).responses
      ∙ store_entry-responses f v name at p

  pub answer-runner :
      (f : String) (v : Value) (name at : String) (p : Page)
      → (answer date is_url indexed f v name at p).0.runner ≡ p.runner
  unfolding answer
  answer-runner f v name at p =
      (clear_own-same (lookup f p.flags) f (store_entry date is_url indexed f v name at p)).runner
      ∙ store_entry-runner f v name at p
