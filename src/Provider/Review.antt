-- ===== src/Provider/Review.antt =====
-- The evaluation of a price and the review of an anomaly (`realEvidence.analysis` in analysis.go).
use agro_chain.Base.{
  String, Bool, true, false, not, ◌&&◌, ◌||◌, List, [], ◌∷◌, eqb, length, ◌==◌, ◌/=◌, if◌then◌else◌,
}
use agro_chain.Base.Int.{pos, ltz, eqz}
use agro_chain.Codes.{
  Result, ok, invalid_schema, missing_evidence, source_binding_mismatch, anomaly_already_exists,
  policy_mismatch, invalid_money, anomaly_result_mismatch, invalid_review_transition,
  invalid_state_transition, ◌>>=◌, ◌>>◌, fail_if,
}
use agro_chain.Text.{valid_id, hex_id, valid_explanation}
use agro_chain.Model.{Command, Batch, EvidenceRefs, AnalysisInput, Configuration, retail_reported}
use agro_chain.Model.Zero.{zero_analysis}
use agro_chain.Model.Evidence.{
  PurchaseBody, RetailRecord, CostRecord, AnomalyRecord, EvaluationReference, ReviewInput,
  ReviewAction,
}
use agro_chain.Model.Evidence.Zero.{
  zero_opening, zero_retail_record, zero_cost_record, zero_anomaly_record,
  zero_evaluation_reference, zero_review_input,
}
use agro_chain.Score.{Score, price_score}
use agro_chain.Platform.{Platform, key, decode}
use agro_chain.Ledger.{Ledger, put_value, load, absent}
use agro_chain.Step.{Execution, Verified}
use agro_chain.Query.{get_config}
use agro_chain.Evidence.{trade, freight, audit, exact}
use agro_chain.Evidence.Types.{purchase_type, score_type}
use agro_chain.Provider.{Transient, entry_of, no_evidence, private_load, add_private, read_salt}

-- `proposed != result`
unfoldable pub same_score : Score → Score → Bool
same_score a b =
    eqz a.increase b.increase && a.classification == b.classification && a.reason == b.reason

unfoldable pub bad_binding : Batch → EvidenceRefs → PurchaseBody → RetailRecord → CostRecord → Bool
bad_binding b refs purchase report cost =
    report.batch_id /= b.batch_id
    || cost.batch_id /= b.batch_id
    || not (eqz purchase.quantity b.quantity_grams)
    || not (eqz report.quantity b.quantity_grams)
    || not (eqz cost.quantity b.quantity_grams)
    || report.purchase_id /= refs.purchase_document_id
    || report.cost_id /= refs.freight_cost_id

unfoldable pub bad_terms : PurchaseBody → RetailRecord → CostRecord → Bool
bad_terms purchase report cost =
    purchase.currency /= "TRY"
    || report.input.currency /= "TRY"
    || cost.currency /= "TRY"
    || purchase.tax /= "EXCLUDING_TAX"
    || report.input.tax /= "EXCLUDING_TAX"
    || cost.tax /= "EXCLUDING_TAX"
    || ltz cost.total (pos 0)
    || ltz (pos 1000000000000) cost.total

unfoldable pub first_review_state : Score → String
first_review_state result =
    if result.classification == "REVIEW_REQUIRED" then "OPEN" else "NOT_REQUIRED"

-- The tags that a review action is decoded by, and its name.
unfoldable pub review_tags : Bool → List String
review_tags false = "reviewerRef" ∷ "recordSaltHex" ∷ []
review_tags true = "reviewerRef" ∷ "recordSaltHex" ∷ "outcome" ∷ "explanation" ∷ []

unfoldable pub review_action_name : Bool → String
review_action_name false = "OPEN_REVIEW"
review_action_name true = "RESOLVE_REVIEW"

unfoldable pub bad_outcome : ReviewInput → Bool
bad_outcome i =
    (i.outcome /= "EXPLAINED"
      && i.outcome /= "FOLLOW_UP_RECOMMENDED"
      && i.outcome /= "INSUFFICIENT_EVIDENCE")
    || not (valid_explanation i.explanation)

-- The review state behind a review action; `true` is ResolveReview.
unfoldable pub next_review : Bool → ReviewInput → String → Result String
next_review false i state = do fail_if (state /= "OPEN") invalid_review_transition; ok "IN_REVIEW"
next_review true i state = do
  fail_if (state /= "IN_REVIEW") invalid_review_transition
  fail_if (bad_outcome i) invalid_schema
  ok "RESOLVED"

module _ (p : Platform) (s : Ledger) (t : Transient) (c : Command) (x : Execution) (b : Batch) where
  unfoldable pub analysed : AnalysisInput
  analysed = (p.analysis_input.unmarshal zero_analysis c.payload).0

  unfoldable pub evaluation : EvaluationReference
  evaluation = record {
    schema_version = "agrochain.evaluation-reference.v1";
    batch_id = b.batch_id;
    report_id = analysed.report_id;
    anomaly_id = analysed.anomaly_id;
    tx_id = x.tx_id;
  }

  unfoldable pub anomaly_of :
      Configuration → PurchaseBody → RetailRecord → CostRecord → Score → String → AnomalyRecord
  anomaly_of cfg purchase report cost result salt = record {
    schema_version = "agrochain.anomaly-result.v1";
    anomaly_id = analysed.anomaly_id;
    batch_id = b.batch_id;
    report_id = analysed.report_id;
    policy_id = cfg.policy_id;
    rule = "price-increase-v1";
    purchase = purchase.price;
    retail = report.input.price;
    freight = cost.total;
    quantity = b.quantity_grams;
    score = result;
    threshold = cfg.threshold_bps;
    review_state = first_review_state result;
    salt = salt;
    operation_id = c.operation_id;
    tx_id = x.tx_id;
  }

  -- The anomaly that EvaluatePrice derives from the private records, and the proposal confirms.
  unfoldable pub evaluate : EvidenceRefs → Result AnomalyRecord
  evaluate refs = do
    cfg ← get_config p s
    buy ←
        private_load p.opening zero_opening s trade
          (key p "documentOpening" (refs.purchase_document_id ∷ []))
    purchase ← exact p (purchase_type p) buy.body
    report ←
        private_load p.retail_record zero_retail_record s audit
          (key p "report" (refs.retail_report_id ∷ []))
    cost ←
        private_load p.cost_record zero_cost_record s freight
          (key p "cost" (refs.freight_cost_id ∷ []))
    fail_if (bad_binding b refs purchase report cost) source_binding_mismatch
    fail_if (report.policy_id /= cfg.policy_id) policy_mismatch
    fail_if (bad_terms purchase report cost) invalid_money
    result ← price_score purchase.price report.input.price cfg.threshold_bps
    proposed ← exact p (score_type p) (entry_of "proposedResult" t)
    fail_if (not (same_score proposed result)) anomaly_result_mismatch
    salt ← read_salt p t "recordSaltHex"
    ok (anomaly_of cfg purchase report cost result salt)

  unfoldable pub evaluate_price_evidence : EvidenceRefs → Result Verified
  evaluate_price_evidence refs = do
    fail_if (b.state /= retail_reported) invalid_state_transition
    fail_if (not (eqb (length t) 2)) invalid_schema
    fail_if
        (refs.retail_report_id == ""
          || refs.purchase_document_id == ""
          || refs.freight_cost_id == "")
        missing_evidence
    fail_if (analysed.report_id /= refs.retail_report_id) source_binding_mismatch
    absent s (key p "evaluation" (b.batch_id ∷ [])) anomaly_already_exists
    absent s (key p "anomalyReference" (analysed.anomaly_id ∷ [])) anomaly_already_exists
    a ← evaluate refs
    plan₁ ← put_value p p.evaluation_reference (key p "evaluation" (b.batch_id ∷ [])) evaluation []
    plan₂ ←
        put_value p p.evaluation_reference (key p "anomalyReference" (analysed.anomaly_id ∷ []))
          evaluation plan₁
    add_private p p.anomaly_record audit (key p "anomaly" (analysed.anomaly_id ∷ [])) a
        (record no_evidence { public = plan₂ })

  unfoldable pub action_of : Bool → ReviewInput → ReviewAction
  action_of is_resolve input = record {
    schema_version = "agrochain.review-action.v1";
    operation_id = c.operation_id;
    anomaly_id = analysed.anomaly_id;
    action = review_action_name is_resolve;
    input = input;
    tx_id = x.tx_id;
  }

  unfoldable pub review_evidence : Bool → Result Verified
  review_evidence is_resolve = do
    fail_if (b.state /= retail_reported) invalid_state_transition
    fail_if (not (eqb (length t) 2)) invalid_schema
    found ←
        load p.evaluation_reference s (key p "evaluation" (b.batch_id ∷ []))
          zero_evaluation_reference
    fail_if (not found.0 || found.1.anomaly_id /= analysed.anomaly_id) invalid_review_transition
    a ←
        private_load p.anomaly_record zero_anomaly_record s audit
          (key p "anomaly" (analysed.anomaly_id ∷ []))
    fail_if (a.score.classification /= "REVIEW_REQUIRED") invalid_review_transition
    input ←
        decode p p.review_input zero_review_input (entry_of "reviewActionInput" t)
          (review_tags is_resolve)
    fail_if (not (valid_id input.reviewer "REV") || not (hex_id input.salt)) invalid_schema
    salt ← read_salt p t "reviewStateSaltHex"
    fail_if (salt == input.salt || salt == a.salt) invalid_schema
    state ← next_review is_resolve input a.review_state
    acted ←
        add_private p p.review_action audit
          (key p "reviewAction" (analysed.anomaly_id ∷ c.operation_id ∷ []))
          (action_of is_resolve input) no_evidence
    plan ←
        put_value p p.text
          (key p "reviewActionReference" (analysed.anomaly_id ∷ c.operation_id ∷ [])) c.operation_id
          []
    add_private p p.anomaly_record audit (key p "anomaly" (analysed.anomaly_id ∷ []))
        (record a { review_state = state; salt = salt }) (record acted { public = plan })
