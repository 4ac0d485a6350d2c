-- ===== src/Conflict/Notices.antt =====
-- The handler around the merge: what subscribers are told, and that they cannot change the outcome.
use yumyums_purchase_orders.Common.{
  ◌⊎◌, inl, inr, String, ◌≡◌, refl, sym, ◌∙◌, ap, Bool, not, List, [], ◌∷◌, ◌++◌, Option, none,
  some, arith, map, keep,
}
use mathlib.Core.List.{append_assoc, append-nil}
use yumyums_purchase_orders.Json.{Value, Fields}
use yumyums_purchase_orders.Conflict.{
  Options, Input, Clash, Baseline, Outcome, returned, thrown, resolve_conflict, resolve_with,
  document_id,
}
use yumyums_purchase_orders.Conflict.Handler.{
  Notice, Resolved, notify, resolve, create_hq_conflict_handler, conflict_opts_of,
  describe_conflict, Described,
}

abbrev pub notice_at : Value → Baseline → Clash → Notice
notice_at id baseline c = record { id = id; baseline = baseline; clash = c }

notify_lem :
    (on_clash : Notice → Bool) (id : Value) (b : Baseline) (cs : List Clash) (r : Resolved)
    → notify on_clash id b cs r ≡ record {
      document = r.document;
      notices = r.notices ++ map (notice_at id b) cs;
      warnings = r.warnings ++ keep (λ n. not (on_clash n)) (map (notice_at id b) cs);
    }
unfolding notify
notify_lem on_clash id b [] r = λ i. record {
  document = r.document;
  notices = sym (append-nil r.notices) i;
  warnings = sym (append-nil r.warnings) i;
}
notify_lem on_clash id b (c ∷ cs) r =
    notify_lem on_clash id b cs _
    ∙ ground (
      arith,
      append_assoc r.notices (notice_at id b c ∷ []) (map (notice_at id b) cs),
      append_assoc r.warnings (notice_at id b c ∷ [])
          (keep (λ n. not (on_clash n)) (map (notice_at id b) cs)),
    )

Outcome-cases {ℓ} :
    {A : Type ℓ} (o : Outcome A) → ((a : A) × (o ≡ returned a)) ⊎ ((t : String) × (o ≡ thrown t))
Outcome-cases (returned a) = inl (a, refl)
Outcome-cases (thrown t) = inr (t, refl)

-- The document that `resolve` hands back is that of the merge, whatever the subscriber does: it is
-- told of each clash once, in order, with the fork's id, and its failures end up as warnings. With
-- no subscriber nothing is told. Without master's state `resolve` throws.
pub resolve_lem :
    (opts : Options) (on_clash : Option (Notice → Bool)) (input : Input)
    → resolve (create_hq_conflict_handler opts on_clash) input
      ≡ elim (resolve_conflict opts input) [
        | thrown e ↦ thrown e
        | returned r ↦
            let told : List Notice = elim on_clash [
              | none ↦ []
              | some _ ↦
                  map (notice_at (document_id input.fork opts.primary_path) r.baseline) r.clashes
            ] in
            returned (record {
              document = r.document;
              notices = told;
              warnings = elim on_clash [ none ↦ [] | some f ↦ keep (λ n. not (f n)) told ];
            })
      ]
unfolding resolve create_hq_conflict_handler
resolve_lem opts none input = elim (Outcome-cases (resolve_conflict opts input)) [
  | inl (r, e) ↦ rw (e, resolve)
  | inr (t, e) ↦ rw (e, resolve)
]
resolve_lem opts (some f) input = elim (Outcome-cases (resolve_conflict opts input)) [
  | inl (r, e) ↦ rw (e, resolve) (ap returned (notify_lem f _ r.baseline r.clashes _))
  | inr (t, e) ↦ rw (e, resolve)
]

-- The sheet shows what the handler decided: described under the handler's own options, an emission
-- gives the document id, the baseline and the clashes that the handler told its subscriber of.
pub describe_conflict-resolve :
    (opts : Options) (on_clash : Notice → Bool) (input : Input) (d : Described) (r : Resolved)
    → let h = create_hq_conflict_handler opts (some on_clash) in
      describe_conflict (conflict_opts_of (some h)) input ≡ returned d
      → resolve h input ≡ returned r
      → r.notices ≡ map (notice_at (document_id input.fork opts.primary_path) d.baseline) d.clashes
unfolding describe_conflict conflict_opts_of create_hq_conflict_handler
describe_conflict-resolve opts on_clash input d r p q =
    elim (Outcome-cases (resolve_conflict opts input)) [
      | inl (c, e) ↦ ground (arith, e, resolve_lem opts (some on_clash) input)
      | inr (t, e) ↦ ground (arith, e)
    ]

-- With both states there, a described emission has the clashes of the merge.
pub describe_conflict-clashes :
    (opts : Options) (base fork master : Fields) (d : Described)
    → describe_conflict opts
        (record { assumed = some base; fork = some fork; master = some master })
      ≡ returned d
    → d.clashes ≡ (resolve_with opts (some base) fork master).clashes
unfolding describe_conflict resolve_conflict
describe_conflict-clashes opts base fork master d e =
    sym (ap (λ o. elim o [ returned x ↦ x.clashes | thrown t ↦ [] ]) e)
