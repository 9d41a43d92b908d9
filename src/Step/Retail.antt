-- ===== src/Step/Retail.antt =====
-- RecordFreightCost and ReportRetailPrice in `engine.apply` (domain.go).
use agro_chain.Base.{Bool, not, ◌&&◌, ◌||◌, [], ◌∷◌, ◌==◌, ◌/=◌}
use agro_chain.Base.Int.{pos, ltz, eqz}
use agro_chain.Codes.{
  Result, ok, invalid_state_transition, unauthorized_organization, cost_already_exists,
  source_binding_mismatch, invalid_money, missing_evidence, report_already_exists,
  lot_already_exists, policy_mismatch, ◌>>=◌, ◌>>◌, fail_if,
}
use agro_chain.Model.{
  Command, Batch, EvidenceRefs, FreightInput, ReportInput, Lot, in_transport, delivery_pending,
  received, retail_reported,
}
use agro_chain.Model.Zero.{zero_freight, zero_report}
use agro_chain.Platform.{Platform, key}
use agro_chain.Ledger.{Ledger, put_value, absent}
use agro_chain.Step.{Execution, Verified, Outcome, valid_purchase}

-- `FreightTotal < 0 || FreightTotal > 1000000000000 || Currency != "TRY" || TaxBasis != ...`
unfoldable pub bad_freight : Verified → Bool
bad_freight proof =
    ltz proof.freight_total (pos 0)
    || ltz (pos 1000000000000) proof.freight_total
    || proof.currency /= "TRY"
    || proof.tax_basis /= "EXCLUDING_TAX"

-- `!validPurchase(proof) || RetailPrice < 0 || RetailPrice > 1000000000`
unfoldable pub bad_retail : Verified → Bool
bad_retail proof =
    not (valid_purchase proof)
    || ltz proof.retail_price (pos 0)
    || ltz (pos 1000000000) proof.retail_price

module _ (p : Platform) (s : Ledger) (c : Command) (x : Execution) (proof : Verified) where
  unfoldable pub cost : FreightInput
  cost = (p.freight_input.unmarshal zero_freight c.payload).0

  unfoldable pub record_freight : Batch → EvidenceRefs → Result Outcome
  record_freight b refs = do
    fail_if (b.state /= in_transport && b.state /= delivery_pending) invalid_state_transition
    fail_if (b.custodian_msp /= x.actor) unauthorized_organization
    fail_if (refs.freight_cost_id /= "") cost_already_exists
    absent s (key p "costReference" (cost.cost_id ∷ [])) cost_already_exists
    fail_if (not (eqz proof.quantity b.quantity_grams)) source_binding_mismatch
    fail_if (bad_freight proof) invalid_money
    plan ← put_value p p.text (key p "costReference" (cost.cost_id ∷ [])) c.batch_id []
    ok (record {
      batch = b;
      refs = record refs { freight_cost_id = cost.cost_id };
      plan = plan;
      ids = c.batch_id ∷ cost.cost_id ∷ [];
      event_name = "FreightCostRecorded";
    })

  unfoldable pub report : ReportInput
  report = (p.report_input.unmarshal zero_report c.payload).0

  unfoldable pub new_lot : Batch → Lot
  new_lot b = record {
    schema_version = "agrochain.retail-lot.v1";
    retail_lot_id = report.retail_lot_id;
    batch_id = b.batch_id;
    quantity_grams = b.quantity_grams;
    retailer_msp = x.actor;
    report_id = report.report_id;
    tx_id = x.tx_id;
  }

  unfoldable pub report_retail : Batch → EvidenceRefs → Result Outcome
  report_retail b refs = do
    fail_if (b.state /= received) invalid_state_transition
    fail_if (b.owner_msp /= x.actor || b.custodian_msp /= x.actor) unauthorized_organization
    fail_if (refs.purchase_document_id == "" || refs.freight_cost_id == "") missing_evidence
    fail_if (refs.retail_report_id /= "" || b.retail_lot_id /= "") report_already_exists
    absent s (key p "lot" (report.retail_lot_id ∷ [])) lot_already_exists
    absent s (key p "reportReference" (report.report_id ∷ [])) report_already_exists
    fail_if (not (eqz proof.quantity b.quantity_grams)) source_binding_mismatch
    fail_if (bad_retail proof) invalid_money
    fail_if (report.policy_id /= proof.policy_id) policy_mismatch
    plan₁ ← put_value p p.lot (key p "lot" (report.retail_lot_id ∷ [])) (new_lot b) []
    plan₂ ← put_value p p.text (key p "reportReference" (report.report_id ∷ [])) c.batch_id plan₁
    ok (record {
      batch = record b { retail_lot_id = report.retail_lot_id; state = retail_reported };
      refs = record refs { retail_report_id = report.report_id };
      plan = plan₂;
      ids = c.batch_id ∷ report.report_id ∷ report.retail_lot_id ∷ report.policy_id ∷ [];
      event_name = "RetailPriceReported";
    })
