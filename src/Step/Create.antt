-- ===== src/Step/Create.antt =====
-- CreateBatch, and the commands on an analysis, in `engine.apply` (domain.go).
use agro_chain.Base.{Bool, not, [], ◌∷◌, if◌then◌else◌}
use agro_chain.Base.Int.{pos, eqz}
use agro_chain.Codes.{Result, ok, source_binding_mismatch, ◌>>=◌, ◌>>◌, fail_if}
use agro_chain.Model.{Command, Batch, EvidenceRefs, CreateInput, created}
use agro_chain.Model.Zero.{zero_create, zero_analysis, zero_time}
use agro_chain.Platform.{Platform}
use agro_chain.Ledger.{Ledger}
use agro_chain.Step.{Execution, Verified, Outcome}
use agro_chain.Step.Documents.{consume_document}

-- The new batch, whose version and update fields the common end fills in.
unfoldable pub new_batch : Command → Execution → CreateInput → Batch
new_batch c x i = record {
  schema_version = "agrochain.batch.v1";
  batch_id = c.batch_id;
  product_code = i.product_code;
  grade_code = i.grade_code;
  quantity_grams = i.quantity_grams;
  origin_region_code = i.origin_region_code;
  harvest_date = i.harvest_date;
  producer_msp = x.actor;
  logistics_msp = i.logistics_msp;
  intended_retailer_msp = i.intended_retailer_msp;
  owner_msp = x.actor;
  custodian_msp = x.actor;
  state = created;
  version = pos 0;
  retail_lot_id = "";
  created_tx_id = x.tx_id;
  updated_tx_id = "";
  tx_time = zero_time;
}

module _ (p : Platform) (s : Ledger) (c : Command) (x : Execution) (proof : Verified) where
  unfoldable pub create : EvidenceRefs → Result Outcome
  create refs = do
    let b = new_batch c x (p.create_input.unmarshal zero_create c.payload).0
    fail_if (not (eqz proof.quantity b.quantity_grams)) source_binding_mismatch
    plan ← consume_document p s c proof.cks []
    ok (record {
      batch = b;
      refs = record refs { cks_document_id = proof.cks };
      plan = plan;
      ids = c.batch_id ∷ proof.cks ∷ [];
      event_name = "BatchCreated";
    })

  -- EvaluatePrice, OpenReview and ResolveReview leave the batch and the references as they are.
  unfoldable pub analyse : Bool → Batch → EvidenceRefs → Result Outcome
  analyse is_evaluation b refs =
      let i = (p.analysis_input.unmarshal zero_analysis c.payload).0 in
      ok (record {
        batch = b;
        refs = refs;
        plan = [];
        ids = c.batch_id ∷ i.anomaly_id ∷ (if is_evaluation then i.report_id ∷ [] else []);
        event_name = if is_evaluation then "PriceEvaluated" else "ReviewUpdated";
      })
