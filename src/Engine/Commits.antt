-- ===== src/Engine/Commits.antt =====
-- What the commit of an accepted command leaves under the keys of the batch and of the operation.
use agro_chain.Base.{String, [], ◌∷◌, ◌≡◌, ◌∙◌, refl, sym, subst, ap}
use agro_chain.Codes.{Result, ok}
use agro_chain.Model.{Bytes, Command, Batch, EvidenceRefs, Receipt}
use agro_chain.Platform.{Platform, key, canonical}
use agro_chain.Ledger.{Ledger, planned}
use agro_chain.Ledger.Plan.{committed, after_plan}
use agro_chain.Step.{Execution, Verified}
use agro_chain.Engine.{Draft, updated, new_receipt, apply}
use agro_chain.Engine.Effects.{apply-ok}
use agro_chain.Engine.Accepted.{Accepted, decide-Accepted}
use agro_chain.Engine.Written.{KeyLaw, Respects, record_all-Recorded, planned-final}

abbrev pub batch_key : Platform → Command → String
batch_key p c = key p "batch" (c.batch_id ∷ [])

abbrev pub operation_key : Platform → Command → Execution → String
operation_key p c x = key p "operation" (x.actor ∷ c.operation_id ∷ [])

module _ (p : Platform) (s : Ledger) (prepare : Command → Batch → EvidenceRefs → Result Verified)
    (c : Command) (x : Execution) where
  -- An accepted command with the bytes that its commit leaves.
  pub record Commits (r : Receipt) : Type 0 where
    pub draft : Draft
    pub accepted : Accepted p s c x prepare draft
    pub receipt :
        new_receipt c x accepted.outcome (updated x accepted.old accepted.outcome.batch) ≡ r
    pub batch_bytes : Bytes
    pub batch_canonical :
        canonical p p.batch (updated x accepted.old accepted.outcome.batch) ≡ ok batch_bytes
    pub stored :
        (w : String → Bytes) → committed (apply p s prepare c x).1 w (batch_key p c) ≡ batch_bytes
    pub receipt_bytes : Bytes
    pub receipt_canonical : canonical p p.receipt r ≡ ok receipt_bytes
    pub recorded :
        (w : String → Bytes)
        → committed (apply p s prepare c x).1 w (operation_key p c x) ≡ receipt_bytes

  module _ (law : KeyLaw p) (respects : Respects p prepare) where
    pub apply-Commits : (r : Receipt) → (apply p s prepare c x).0 ≡ ok r → Commits r
    apply-Commits r h =
        let (d, decided, receipt, effect) = apply-ok p s prepare c x r h in
        commits d (decide-Accepted p s c x prepare d decided) receipt effect
      where
        commits :
            (d : Draft)
            → Accepted p s c x prepare d
            → d.receipt ≡ r
            → ((w : String → Bytes) (k : String)
                → committed (apply p s prepare c x).1 w k ≡ after_plan (planned k d.plan) (w k))
            → Commits r
        commits d a q effect =
            let b : Batch = updated x a.old a.outcome.batch in
            let records =
              record_all-Recorded p law s c x b a.outcome.refs (new_receipt c x a.outcome b)
                a.outcome.plan a.plan a.recorded in
            let given : new_receipt c x a.outcome b ≡ r = sym a.receipt ∙ q in
            record {
              draft = d;
              accepted = a;
              receipt = given;
              batch_bytes = records.batch_bytes;
              batch_canonical = records.batch_canonical;
              stored = λ w.
                  effect w (batch_key p c)
                  ∙ ap (λ o. after_plan o (w (batch_key p c)))
                      (ap (planned (batch_key p c)) a.planned
                        ∙ planned-final p law s a.exists a.old b a.plan a.proof.public "batch" _
                            refl refl
                            (respects.avoids c a.old a.loaded_refs.1 a.proof "batch" _ a.prepared
                              refl)
                        ∙ records.batch);
              receipt_bytes = records.receipt_bytes;
              receipt_canonical =
                  subst (λ z. canonical p p.receipt z ≡ ok records.receipt_bytes) given
                    records.receipt_canonical;
              recorded = λ w.
                  effect w (operation_key p c x)
                  ∙ ap (λ o. after_plan o (w (operation_key p c x)))
                      (ap (planned (operation_key p c x)) a.planned
                        ∙ planned-final p law s a.exists a.old b a.plan a.proof.public "operation" _
                            refl refl
                            (respects.avoids c a.old a.loaded_refs.1 a.proof "operation" _
                              a.prepared refl)
                        ∙ records.operation);
            }
