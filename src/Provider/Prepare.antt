-- ===== src/Provider/Prepare.antt =====
-- `realEvidence.prepare` of private.go.
use agro_chain.Base.{String, Bool, false, true, not, ◌||◌, List, [], ◌∷◌, ◌==◌, ◌/=◌}
use agro_chain.Base.Int.{eqz}
use agro_chain.Codes.{Result, ok, invalid_schema, source_binding_mismatch, ◌>>=◌, ◌>>◌, fail_if}
use agro_chain.Text.{hex_id}
use agro_chain.Text.Decimal.{valid_date_time}
use agro_chain.Model.{
  Fn, Command, Batch, EvidenceRefs, Configuration, report_retail_price, evaluate_price, open_review,
  resolve_review,
}
use agro_chain.Model.Zero.{zero_report}
use agro_chain.Model.Evidence.{Bundle, PurchaseBody, CostRecord, RetailInput, RetailRecord}
use agro_chain.Model.Evidence.Zero.{zero_opening, zero_cost_record}
use agro_chain.Platform.{Platform, key}
use agro_chain.Ledger.{Ledger}
use agro_chain.Step.{Execution, Verified}
use agro_chain.Query.{get_config}
use agro_chain.Evidence.{trade, freight, audit, exact, verify_bundle}
use agro_chain.Evidence.Types.{retail_input_type, purchase_type}
use agro_chain.Provider.{
  Transient, entry_of, no_evidence, required_of, check_transient, system_for, without, private_load,
  add_private, record_uses, documents_for,
}
use agro_chain.Provider.Claims.{claim}
use agro_chain.Provider.Review.{evaluate_price_evidence, review_evidence}

unfoldable pub bad_prices : Batch → CostRecord → PurchaseBody → RetailInput → Bool
bad_prices b cost purchase input =
    cost.batch_id /= b.batch_id
    || not (eqz cost.quantity b.quantity_grams)
    || cost.currency /= input.currency
    || cost.tax /= input.tax
    || purchase.currency /= input.currency
    || purchase.tax /= input.tax

module _ (p : Platform) (s : Ledger) (t : Transient) (x : Execution) where
  -- One document: its type and system, its signature and commitment, its binding, its uses, its claim.
  unfoldable pub take_document :
      Command → Batch → List (String × String) → Bundle → Verified → Result Verified
  take_document c b required d v = do
    let h = d.envelope.header
    fail_if
        (system_for h.document_type required /= h.source_system
          || system_for h.document_type required == "")
        source_binding_mismatch
    verify_bundle p s d
    fail_if (h.batch_id /= c.batch_id || h.operation_id /= c.operation_id) source_binding_mismatch
    plan ← record_uses p s c x d v.public
    claim p c x b d t (record v { public = plan })

  unfoldable pub take_documents :
      Command → Batch → List (String × String) → List Bundle → Verified → Result Verified
  take_documents c b required [] v = ok v
  take_documents c b required (d ∷ ds) v = take_document c b required d v >>= λ next.
      take_documents c b (without d.envelope.header.document_type required) ds next

  unfoldable pub retail_of : Command → Batch → EvidenceRefs → RetailInput → RetailRecord
  retail_of c b refs input =
      let r = (p.report_input.unmarshal zero_report c.payload).0 in
      record {
        schema_version = "agrochain.retail-price-report.v1";
        report_id = r.report_id;
        batch_id = c.batch_id;
        lot_id = r.retail_lot_id;
        quantity = b.quantity_grams;
        retailer = x.actor;
        input = input;
        purchase_id = refs.purchase_document_id;
        cost_id = refs.freight_cost_id;
        policy_id = r.policy_id;
        operation_id = c.operation_id;
        tx_id = x.tx_id;
      }

  -- The evidence of ReportRetailPrice: the private records of the purchase and the freight.
  unfoldable pub retail_evidence :
      Configuration → Command → Batch → EvidenceRefs → Verified → Result Verified
  retail_evidence config c b refs v = do
    input ← exact p (retail_input_type p) (entry_of "retailReportInput" t)
    fail_if (not (valid_date_time input.reported_at) || not (hex_id input.salt)) invalid_schema
    buy ←
        private_load p.opening zero_opening s trade
          (key p "documentOpening" (refs.purchase_document_id ∷ []))
    purchase ← exact p (purchase_type p) buy.body
    cost ←
        private_load p.cost_record zero_cost_record s freight
          (key p "cost" (refs.freight_cost_id ∷ []))
    fail_if (bad_prices b cost purchase input) source_binding_mismatch
    add_private p p.retail_record audit (key p "report" ((retail_of c b refs input).report_id ∷ []))
        (retail_of c b refs input)
        (record v {
          quantity = purchase.quantity;
          purchase_price = purchase.price;
          purchase_total = purchase.total;
          retail_price = input.price;
          currency = input.currency;
          tax_basis = input.tax;
          policy_id = config.policy_id;
        })

  unfoldable pub report_evidence :
      Fn → Configuration → Command → Batch → EvidenceRefs → Verified → Result Verified
  report_evidence report_retail_price config c b refs v = retail_evidence config c b refs v
  report_evidence _ config c b refs v = ok v

  unfoldable pub document_evidence : Command → Batch → EvidenceRefs → Result Verified
  document_evidence c b refs = do
    config ← get_config p s
    check_transient c.command t
    documents ← documents_for p c.command t
    v ← take_documents c b (required_of c.command) documents no_evidence
    report_evidence c.command config c b refs v

  unfoldable pub prepare_for : Fn → Command → Batch → EvidenceRefs → Result Verified
  prepare_for evaluate_price c b refs = evaluate_price_evidence p s t c x b refs
  prepare_for open_review c b refs = review_evidence p s t c x b false
  prepare_for resolve_review c b refs = review_evidence p s t c x b true
  prepare_for _ c b refs = document_evidence c b refs

  unfoldable pub prepare : Command → Batch → EvidenceRefs → Result Verified
  unfolding prepare_for
  prepare c b refs = prepare_for c.command c b refs
