-- ===== src/Model/Evidence/Zero.antt =====
-- The zero values of the evidence records.
use agro_chain.Base.{false, []}
use agro_chain.Base.Int.{pos}
use agro_chain.Score.{Score}
use agro_chain.Model.{SourceKey}
use agro_chain.Model.Evidence.{
  Header, Envelope, Bundle, Opening, Eligibility, PurchaseBody, Notification, Manifest, FreightBody,
  CostRecord, RetailInput, RetailRecord, AnomalyRecord, EvaluationReference, ReviewInput,
  ReviewAction,
}

abbrev pub zero_score : Score
zero_score = record { increase = pos 0; classification = ""; reason = "" }

abbrev pub zero_source_key : SourceKey
zero_source_key = record {
  schema_version = "";
  issuer_id = "";
  source_system = "";
  document_types = [];
  key_id = "";
  public_key = "";
  enabled = false;
}

abbrev pub zero_header : Header
zero_header = record {
  schema_version = "";
  document_id = "";
  source_system = "";
  source_mode = "";
  issuer_id = "";
  key_id = "";
  source_document_id = "";
  document_type = "";
  batch_id = "";
  operation_id = "";
  issued_at = "";
  nonce = "";
  commitment_algorithm = "";
  commitment = "";
  signature_algorithm = "";
}

abbrev pub zero_envelope : Envelope
zero_envelope = record { header = zero_header; signature = "" }

abbrev pub zero_bundle : Bundle
zero_bundle = record { envelope = zero_envelope; body = []; salt = "" }

abbrev pub zero_opening : Opening
zero_opening = record { body = []; salt = "" }

abbrev pub zero_eligibility : Eligibility
zero_eligibility = record {
  producer = "";
  product = "";
  grade = "";
  quantity = pos 0;
  region = "";
  harvest = "";
  eligible = false;
}

abbrev pub zero_purchase_body : PurchaseBody
zero_purchase_body = record {
  seller = "";
  buyer = "";
  quantity = pos 0;
  price = pos 0;
  total = pos 0;
  currency = "";
  tax = "";
  digest = "";
  media_type = "";
}

abbrev pub zero_notification : Notification
zero_notification = record {
  producer = "";
  retailer = "";
  product = "";
  quantity = pos 0;
  notified = false;
}

abbrev pub zero_manifest : Manifest
zero_manifest = record {
  carrier = "";
  consignor = "";
  consignee = "";
  product = "";
  quantity = pos 0;
  departure = "";
}

abbrev pub zero_freight_body : FreightBody
zero_freight_body = record {
  carrier = "";
  payer = "";
  quantity = pos 0;
  total = pos 0;
  currency = "";
  tax = "";
  digest = "";
  media_type = "";
}

abbrev pub zero_cost_record : CostRecord
zero_cost_record = record {
  schema_version = "";
  cost_id = "";
  batch_id = "";
  kind = "";
  payer = "";
  payee = "";
  quantity = pos 0;
  total = pos 0;
  currency = "";
  tax = "";
  source_document_id = "";
  salt = "";
  operation_id = "";
  tx_id = "";
}

abbrev pub zero_retail_input : RetailInput
zero_retail_input = record { price = pos 0; currency = ""; tax = ""; reported_at = ""; salt = "" }

abbrev pub zero_retail_record : RetailRecord
zero_retail_record = record {
  schema_version = "";
  report_id = "";
  batch_id = "";
  lot_id = "";
  quantity = pos 0;
  retailer = "";
  input = zero_retail_input;
  purchase_id = "";
  cost_id = "";
  policy_id = "";
  operation_id = "";
  tx_id = "";
}

abbrev pub zero_anomaly_record : AnomalyRecord
zero_anomaly_record = record {
  schema_version = "";
  anomaly_id = "";
  batch_id = "";
  report_id = "";
  policy_id = "";
  rule = "";
  purchase = pos 0;
  retail = pos 0;
  freight = pos 0;
  quantity = pos 0;
  score = zero_score;
  threshold = pos 0;
  review_state = "";
  salt = "";
  operation_id = "";
  tx_id = "";
}

abbrev pub zero_evaluation_reference : EvaluationReference
zero_evaluation_reference = record {
  schema_version = "";
  batch_id = "";
  report_id = "";
  anomaly_id = "";
  tx_id = "";
}

abbrev pub zero_review_input : ReviewInput
zero_review_input = record { reviewer = ""; outcome = ""; explanation = ""; salt = "" }

abbrev pub zero_review_action : ReviewAction
zero_review_action = record {
  schema_version = "";
  operation_id = "";
  anomaly_id = "";
  action = "";
  input = zero_review_input;
  tx_id = "";
}
