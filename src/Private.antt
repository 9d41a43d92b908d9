-- ===== src/Private.antt =====
-- The private reads: mayRead, privateQuery and verifyOpening of private.go, analysisQuery of
-- analysis.go.
pub mod Secrecy
pub mod Openings
use agro_chain.Base.{
  String, Bool, true, false, not, ◌&&◌, ◌||◌, List, [], ◌∷◌, eqb, length, ◌==◌, ◌/=◌, if◌then◌else◌,
}
use agro_chain.Base.Int.{pos}
use agro_chain.Codes.{
  Result, ok, err, private_data_access_denied, invalid_identifier, batch_not_found,
  unsupported_pilot_operation, document_not_found, invalid_schema, ◌>>=◌, ◌>>◌, fail_if,
}
use agro_chain.Text.{valid_id}
use agro_chain.Model.{
  Bytes, Fn, EvidenceRefs, get_purchase, get_freight_cost, get_retail_report, get_anomaly,
  get_review_history, producer_msp, logistics_msp, retailer_msp, regulator_msp,
}
use agro_chain.Model.Zero.{zero_batch, zero_refs}
use agro_chain.Model.Evidence.{
  Envelope, Bundle, CostRecord, RetailRecord, AnomalyRecord, ReviewAction,
}
use agro_chain.Model.Evidence.Zero.{
  zero_opening, zero_envelope, zero_cost_record, zero_retail_record, zero_anomaly_record,
  zero_review_action, zero_evaluation_reference,
}
use agro_chain.Platform.{Platform, key}
use agro_chain.Ledger.{Ledger, load}
use agro_chain.Query.{whole}
use agro_chain.Evidence.{trade, freight, audit, exact, verify_bundle}
use agro_chain.Evidence.Types.{opening_type}
use agro_chain.Provider.{Transient, entry_of, private_load}

unfoldable pub may_read : String → String → String → Bool
may_read actor role collection =
    if actor == regulator_msp
    then role == "reviewer" || role == "auditor" || role == "oracle"
    else if actor == retailer_msp
    then role == "retailer"
    else (collection == trade && actor == producer_msp && role == "producer")
      || (collection == freight && actor == logistics_msp && role == "carrier")

-- `map[string]string{...}[fn]`
unfoldable pub collection_of : Fn → String
collection_of get_purchase = trade
collection_of get_freight_cost = freight
collection_of get_retail_report = audit
collection_of _ = ""

-- The anonymous record that VerifyDocument answers.
pub record OpeningResult : Type 0 where
  pub schema_version : String
  pub document_id : String
  pub source_mode : String
  pub commitment_matched : Bool
  pub signature_verified : Bool

-- What a private read answers; a pending evaluation is answered with the batch identifier.
pub data PrivateAnswer : Type 0 where
  purchase_answer : Bundle → PrivateAnswer
  cost_answer : CostRecord → PrivateAnswer
  report_answer : RetailRecord → PrivateAnswer
  pending_answer : String → PrivateAnswer
  anomaly_answer : AnomalyRecord → PrivateAnswer
  actions_answer : List ReviewAction → PrivateAnswer
  opening_answer : OpeningResult → PrivateAnswer

-- The collection of a document that is opened.
unfoldable pub collection_for : Envelope → String
collection_for env = if env.header.document_type == "FREIGHT_INVOICE" then freight else trade

unfoldable pub opening_result : String → OpeningResult
opening_result id = record {
  schema_version = "agrochain.opening-result.v1";
  document_id = id;
  source_mode = "SIMULATED";
  commitment_matched = true;
  signature_verified = true;
}

module _ (p : Platform) (s : Ledger) where
  unfoldable pub review_action_of : String → Bytes → Result ReviewAction
  review_action_of anomaly_id v = do
    op ← whole (p.text.unmarshal "" v)
    private_load p.review_action zero_review_action s audit
        (key p "reviewAction" (anomaly_id ∷ op ∷ []))

  unfoldable pub review_actions : String → List Bytes → Result (List ReviewAction)
  review_actions anomaly_id [] = ok []
  review_actions anomaly_id (v ∷ vs) = do
    a ← review_action_of anomaly_id v
    rest ← review_actions anomaly_id vs
    ok (a ∷ rest)

  -- What is answered once the batch is evaluated.
  unfoldable pub analysis_answer : Fn → String → Result PrivateAnswer
  analysis_answer get_anomaly anomaly_id = do
    a ←
        private_load p.anomaly_record zero_anomaly_record s audit
          (key p "anomaly" (anomaly_id ∷ []))
    ok (anomaly_answer a)
  analysis_answer _ anomaly_id = do
    entries ← s.page "reviewActionReference" (anomaly_id ∷ []) (pos 10) ""
    actions ← review_actions anomaly_id entries.0
    ok (actions_answer actions)

  unfoldable pub analysis_query : String → String → Fn → String → Result PrivateAnswer
  analysis_query actor role fn id = do
    fail_if (not (may_read actor role audit)) private_data_access_denied
    fail_if (not (valid_id id "BAT")) invalid_identifier
    batch ← load p.batch s (key p "batch" (id ∷ [])) zero_batch
    fail_if (not batch.0) batch_not_found
    ref ← load p.evaluation_reference s (key p "evaluation" (id ∷ [])) zero_evaluation_reference
    if ref.0 then analysis_answer fn ref.1.anomaly_id else ok (pending_answer id)

  -- The `switch` of `privateQuery`.
  unfoldable pub private_answer : Fn → EvidenceRefs → Result PrivateAnswer
  private_answer get_purchase refs = do
    o ←
        private_load p.opening zero_opening s trade
          (key p "documentOpening" (refs.purchase_document_id ∷ []))
    env ← load p.envelope s (key p "document" (refs.purchase_document_id ∷ [])) zero_envelope
    ok (purchase_answer (record { envelope = env.1; body = o.body; salt = o.salt }))
  private_answer get_freight_cost refs = do
    v ←
        private_load p.cost_record zero_cost_record s freight
          (key p "cost" (refs.freight_cost_id ∷ []))
    ok (cost_answer v)
  private_answer get_retail_report refs = do
    v ←
        private_load p.retail_record zero_retail_record s audit
          (key p "report" (refs.retail_report_id ∷ []))
    ok (report_answer v)
  private_answer _ refs = err unsupported_pilot_operation

  unfoldable pub record_query : String → String → Fn → String → Result PrivateAnswer
  record_query actor role fn id = do
    fail_if (not (may_read actor role (collection_of fn))) private_data_access_denied
    fail_if (not (valid_id id "BAT")) invalid_identifier
    batch ← load p.batch s (key p "batch" (id ∷ [])) zero_batch
    fail_if (not batch.0) batch_not_found
    refs ← load p.refs s (key p "batchEvidence" (id ∷ [])) zero_refs
    private_answer fn refs.1

  unfoldable pub private_query : String → String → Fn → String → Result PrivateAnswer
  private_query actor role get_anomaly id = analysis_query actor role get_anomaly id
  private_query actor role get_review_history id = analysis_query actor role get_review_history id
  private_query actor role fn id = record_query actor role fn id

  unfoldable pub verify_opening : String → String → String → Transient → Result PrivateAnswer
  verify_opening actor role id t = do
    fail_if (not (valid_id id "DOC")) invalid_identifier
    env ← load p.envelope s (key p "document" (id ∷ [])) zero_envelope
    fail_if (not env.0) document_not_found
    fail_if (not (may_read actor role (collection_for env.1))) private_data_access_denied
    fail_if (not (eqb (length t) 1)) invalid_schema
    o ← exact p (opening_type p) (entry_of "opening" t)
    verify_bundle p s (record { envelope = env.1; body = o.body; salt = o.salt })
    ok (opening_answer (opening_result id))
