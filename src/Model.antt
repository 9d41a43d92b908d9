-- ===== src/Model.antt =====
-- The records of models.go. Texts are Go strings; int64 and int32 values are ℤ; a JSON payload is its
-- bytes. The function names of the contract are a data type: `other` holds every other text.
pub mod Zero
pub mod Evidence
use agro_chain.Base.{ℕ, Bool, String, List, []}
use agro_chain.Base.Int.{ℤ, pos}

abbrev pub producer_msp : String
producer_msp = "ProducerMSP"

abbrev pub logistics_msp : String
logistics_msp = "LogisticsMSP"

abbrev pub retailer_msp : String
retailer_msp = "RetailerMSP"

abbrev pub regulator_msp : String
regulator_msp = "RegulatorMSP"

abbrev pub created : String
created = "CREATED"

abbrev pub pickup_pending : String
pickup_pending = "PICKUP_PENDING"

abbrev pub in_transport : String
in_transport = "IN_TRANSPORT"

abbrev pub delivery_pending : String
delivery_pending = "DELIVERY_PENDING"

abbrev pub received : String
received = "RECEIVED"

abbrev pub retail_reported : String
retail_reported = "RETAIL_REPORTED"

abbrev pub Bytes : Type 0
Bytes = List ℕ

-- The texts that the `switch` statements on a function name tell apart.
pub data Fn : Type 0 where
  create_batch offer_pickup accept_pickup record_freight_cost offer_delivery : Fn
  accept_delivery report_retail_price evaluate_price open_review resolve_review : Fn
  bootstrap health get_configuration get_document get_purchase get_freight_cost : Fn
  get_retail_report get_anomaly get_review_history verify_document get_batch : Fn
  batch_exists get_transfer get_operation get_batch_history : Fn
  query_batches_by_owner query_batches_by_state : Fn
  other : String → Fn

pub record TxTime : Type 0 where
  pub seconds : String
  pub nanos : ℤ

pub record Command : Type 0 where
  pub schema_version : String
  pub operation_id : String
  pub batch_id : String
  pub expected_version : ℤ
  pub command : Fn
  pub payload : Bytes

pub record Batch : Type 0 where
  pub schema_version : String
  pub batch_id : String
  pub product_code : String
  pub grade_code : String
  pub quantity_grams : ℤ
  pub origin_region_code : String
  pub harvest_date : String
  pub producer_msp : String
  pub logistics_msp : String
  pub intended_retailer_msp : String
  pub owner_msp : String
  pub custodian_msp : String
  pub state : String
  pub version : ℤ
  pub retail_lot_id : String
  pub created_tx_id : String
  pub updated_tx_id : String
  pub tx_time : TxTime

pub record EvidenceRefs : Type 0 where
  pub schema_version : String
  pub batch_id : String
  pub cks_document_id : String
  pub purchase_document_id : String
  pub hks_document_id : String
  pub transport_document_id : String
  pub freight_cost_id : String
  pub retail_report_id : String

pub record Transfer : Type 0 where
  pub schema_version : String
  pub transfer_id : String
  pub batch_id : String
  pub kind : String
  pub status : String
  pub from_msp : String
  pub to_msp : String
  pub quantity_grams : ℤ
  pub offer_operation_id : String
  pub accept_operation_id : String
  pub offered_tx_id : String
  pub accepted_tx_id : String

pub record Receipt : Type 0 where
  pub schema_version : String
  pub operation_id : String
  pub batch_id : String
  pub command : Fn
  pub actor_msp : String
  pub tx_id : String
  pub tx_time : TxTime
  pub result_version : ℤ
  pub object_ids : List String

pub record Event : Type 0 where
  pub schema_version : String
  pub event_type : String
  pub operation_id : String
  pub batch_id : String
  pub actor_msp : String
  pub tx_id : String
  pub tx_time : TxTime
  pub result_version : ℤ
  pub object_ids : List String
  pub previous_state : String
  pub new_state : String

pub record Lot : Type 0 where
  pub schema_version : String
  pub retail_lot_id : String
  pub batch_id : String
  pub quantity_grams : ℤ
  pub retailer_msp : String
  pub report_id : String
  pub tx_id : String

pub record CreateInput : Type 0 where
  pub product_code : String
  pub grade_code : String
  pub quantity_grams : ℤ
  pub origin_region_code : String
  pub harvest_date : String
  pub logistics_msp : String
  pub intended_retailer_msp : String

pub record HandoffInput : Type 0 where
  pub transfer_id : String
  pub quantity_grams : ℤ

pub record FreightInput : Type 0 where
  pub cost_id : String

pub record ReportInput : Type 0 where
  pub report_id : String
  pub retail_lot_id : String
  pub policy_id : String

-- `analysisInput` of analysis.go.
pub record AnalysisInput : Type 0 where
  pub anomaly_id : String
  pub report_id : String

-- The anonymous record that `consumeDocument` stores.
pub record DocumentUse : Type 0 where
  pub batch_id : String
  pub operation_id : String

-- `privateWrite` of evidence.go.
pub record PrivateWrite : Type 0 where
  pub collection : String
  pub key : String
  pub value : Bytes

-- `sourceKey` and `configuration` of evidence.go.
pub record SourceKey : Type 0 where
  pub schema_version : String
  pub issuer_id : String
  pub source_system : String
  pub document_types : List String
  pub key_id : String
  pub public_key : String
  pub enabled : Bool

pub record Configuration : Type 0 where
  pub schema_version : String
  pub policy_id : String
  pub threshold_bps : ℤ
  pub sources : List SourceKey

-- `pageInput` and `Page` of queries.go.
pub record PageInput : Type 0 where
  pub schema_version : String
  pub filter : String
  pub page_size : ℤ
  pub bookmark : String

pub record Page : Type 0 where
  pub schema_version : String
  pub records : List Bytes
  pub bookmark : String
