-- ===== src/Model/Zero.antt =====
-- The zero values that Go declares a variable with, before a value is read into it.
use agro_chain.Base.{[]}
use agro_chain.Base.Int.{pos}
use agro_chain.Model.{
  EvidenceRefs, AnalysisInput, Batch, Command, Configuration, CreateInput, FreightInput,
  HandoffInput, PageInput, Receipt, ReportInput, Transfer, TxTime, other,
}

abbrev pub zero_time : TxTime
zero_time = record { seconds = ""; nanos = pos 0 }

abbrev pub zero_batch : Batch
zero_batch = record {
  schema_version = "";
  batch_id = "";
  product_code = "";
  grade_code = "";
  quantity_grams = pos 0;
  origin_region_code = "";
  harvest_date = "";
  producer_msp = "";
  logistics_msp = "";
  intended_retailer_msp = "";
  owner_msp = "";
  custodian_msp = "";
  state = "";
  version = pos 0;
  retail_lot_id = "";
  created_tx_id = "";
  updated_tx_id = "";
  tx_time = zero_time;
}

abbrev pub zero_transfer : Transfer
zero_transfer = record {
  schema_version = "";
  transfer_id = "";
  batch_id = "";
  kind = "";
  status = "";
  from_msp = "";
  to_msp = "";
  quantity_grams = pos 0;
  offer_operation_id = "";
  accept_operation_id = "";
  offered_tx_id = "";
  accepted_tx_id = "";
}

abbrev pub zero_create : CreateInput
zero_create = record {
  product_code = "";
  grade_code = "";
  quantity_grams = pos 0;
  origin_region_code = "";
  harvest_date = "";
  logistics_msp = "";
  intended_retailer_msp = "";
}

abbrev pub zero_handoff : HandoffInput
zero_handoff = record { transfer_id = ""; quantity_grams = pos 0 }

abbrev pub zero_freight : FreightInput
zero_freight = record { cost_id = "" }

abbrev pub zero_report : ReportInput
zero_report = record { report_id = ""; retail_lot_id = ""; policy_id = "" }

abbrev pub zero_analysis : AnalysisInput
zero_analysis = record { anomaly_id = ""; report_id = "" }

abbrev pub zero_command : Command
zero_command = record {
  schema_version = "";
  operation_id = "";
  batch_id = "";
  expected_version = pos 0;
  command = other "";
  payload = [];
}

abbrev pub zero_receipt : Receipt
zero_receipt = record {
  schema_version = "";
  operation_id = "";
  batch_id = "";
  command = other "";
  actor_msp = "";
  tx_id = "";
  tx_time = zero_time;
  result_version = pos 0;
  object_ids = [];
}

abbrev pub zero_configuration : Configuration
zero_configuration = record {
  schema_version = "";
  policy_id = "";
  threshold_bps = pos 0;
  sources = [];
}

abbrev pub zero_page_input : PageInput
zero_page_input = record { schema_version = ""; filter = ""; page_size = pos 0; bookmark = "" }

abbrev pub zero_refs : EvidenceRefs
zero_refs = record {
  schema_version = "";
  batch_id = "";
  cks_document_id = "";
  purchase_document_id = "";
  hks_document_id = "";
  transport_document_id = "";
  freight_cost_id = "";
  retail_report_id = "";
}
