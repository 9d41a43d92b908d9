-- ===== src/Payload.antt =====
-- Commands and their payloads (`parseCommand` and `validatePayload` in validation.go).
pub mod Bounds
use agro_chain.Base.{
  String, Bool, true, false, not, ◌&&◌, ◌||◌, List, [], ◌∷◌, Option, none, some, eqb, length, codes,
  ◌/=◌, if◌then◌else◌,
}
use agro_chain.Base.Int.{ℤ, pos, ltz}
use agro_chain.Codes.{
  Result, ok, err, invalid_schema, invalid_identifier, invalid_quantity, version_conflict,
  unsupported_schema_version, unsupported_pilot_operation, ◌>>=◌, ◌>>◌, fail_if,
}
use agro_chain.Text.{valid_id}
use agro_chain.Text.Decimal.{parse_int, valid_date}
use agro_chain.Model.{
  Bytes, Fn, Command, CreateInput, HandoffInput, FreightInput, ReportInput, AnalysisInput,
  create_batch, offer_pickup, accept_pickup, record_freight_cost, offer_delivery, accept_delivery,
  report_retail_price, evaluate_price, open_review, resolve_review, bootstrap, health,
  get_configuration, get_document, get_purchase, get_freight_cost, get_retail_report, get_anomaly,
  get_review_history, verify_document, get_batch, batch_exists, get_transfer, get_operation,
  get_batch_history, query_batches_by_owner, query_batches_by_state, other, logistics_msp,
  retailer_msp,
}
use agro_chain.Model.Zero.{
  zero_command, zero_create, zero_handoff, zero_freight, zero_report, zero_analysis,
}
use agro_chain.Platform.{Platform, decode}

-- `1 <= QuantityGrams <= 100000000`
unfoldable pub bad_quantity : ℤ → Bool
bad_quantity q = ltz q (pos 1) || ltz (pos 100000000) q

-- `strconv.Atoi`, two bytes, 1 to 81.
region_number : Option ℤ → Bool
region_number none = false
region_number (some r) = not (ltz r (pos 1) || ltz (pos 81) r)

unfoldable pub valid_region : String → Bool
unfolding region_number
valid_region s = region_number (parse_int s) && eqb (length (codes s)) 2

unfoldable pub check_create : CreateInput → Result (Unit {0})
check_create i = do
  fail_if (bad_quantity i.quantity_grams) invalid_quantity
  fail_if
      (i.product_code /= "TOMATO"
        || i.grade_code /= "STANDARD"
        || i.logistics_msp /= logistics_msp
        || i.intended_retailer_msp /= retailer_msp)
      invalid_schema
  fail_if (not (valid_region i.origin_region_code)) invalid_schema
  fail_if (not (valid_date i.harvest_date)) invalid_schema

unfoldable pub check_handoff : HandoffInput → Result (Unit {0})
check_handoff i = do
  fail_if (not (valid_id i.transfer_id "TRF")) invalid_identifier
  fail_if (bad_quantity i.quantity_grams) invalid_quantity

unfoldable pub check_freight : FreightInput → Result (Unit {0})
check_freight i = fail_if (not (valid_id i.cost_id "CST")) invalid_identifier

unfoldable pub check_report : ReportInput → Result (Unit {0})
check_report i =
    fail_if
      (not (valid_id i.report_id "RPT")
        || not (valid_id i.retail_lot_id "LOT")
        || not (valid_id i.policy_id "CFG"))
      invalid_identifier

unfoldable pub check_analysis : Bool → AnalysisInput → Result (Unit {0})
check_analysis is_evaluation i =
    fail_if
      (not (valid_id i.anomaly_id "ANM") || (is_evaluation && not (valid_id i.report_id "RPT")))
      invalid_identifier

module _ (p : Platform) where
  -- The `switch` of `validatePayload`.
  unfoldable pub validate : Fn → Bytes → Result (Unit {0})
  validate evaluate_price raw = do
    i ← decode p p.analysis_input zero_analysis raw ("anomalyId" ∷ "reportId" ∷ [])
    check_analysis true i
  validate open_review raw = do
    i ← decode p p.analysis_input zero_analysis raw ("anomalyId" ∷ [])
    check_analysis false i
  validate resolve_review raw = do
    i ← decode p p.analysis_input zero_analysis raw ("anomalyId" ∷ [])
    check_analysis false i
  validate create_batch raw = do
    i ← decode p p.create_input zero_create raw (
        "productCode" ∷ "gradeCode" ∷ "quantityGrams" ∷ "originRegionCode" ∷ "harvestDate"
        ∷ "logisticsMsp" ∷ "intendedRetailerMsp" ∷ [])
    check_create i
  validate offer_pickup raw = do
    i ← decode p p.handoff_input zero_handoff raw ("transferId" ∷ "quantityGrams" ∷ [])
    check_handoff i
  validate accept_pickup raw = do
    i ← decode p p.handoff_input zero_handoff raw ("transferId" ∷ "quantityGrams" ∷ [])
    check_handoff i
  validate offer_delivery raw = do
    i ← decode p p.handoff_input zero_handoff raw ("transferId" ∷ "quantityGrams" ∷ [])
    check_handoff i
  validate accept_delivery raw = do
    i ← decode p p.handoff_input zero_handoff raw ("transferId" ∷ "quantityGrams" ∷ [])
    check_handoff i
  validate record_freight_cost raw = do
    i ← decode p p.freight_input zero_freight raw ("costId" ∷ [])
    check_freight i
  validate report_retail_price raw = do
    i ← decode p p.report_input zero_report raw ("reportId" ∷ "retailLotId" ∷ "policyId" ∷ [])
    check_report i
  validate _ raw = err unsupported_pilot_operation

  unfoldable pub validate_payload : Command → Result (Unit {0})
  unfolding validate
  validate_payload c = validate c.command c.payload

-- The text of a function name.
unfoldable pub fn_name : Fn → String
fn_name create_batch = "CreateBatch"
fn_name offer_pickup = "OfferPickup"
fn_name accept_pickup = "AcceptPickup"
fn_name record_freight_cost = "RecordFreightCost"
fn_name offer_delivery = "OfferDelivery"
fn_name accept_delivery = "AcceptDelivery"
fn_name report_retail_price = "ReportRetailPrice"
fn_name evaluate_price = "EvaluatePrice"
fn_name open_review = "OpenReview"
fn_name resolve_review = "ResolveReview"
fn_name bootstrap = "Bootstrap"
fn_name health = "Health"
fn_name get_configuration = "GetConfiguration"
fn_name get_document = "GetDocument"
fn_name get_purchase = "GetPurchase"
fn_name get_freight_cost = "GetFreightCost"
fn_name get_retail_report = "GetRetailReport"
fn_name get_anomaly = "GetAnomaly"
fn_name get_review_history = "GetReviewHistory"
fn_name verify_document = "VerifyDocument"
fn_name get_batch = "GetBatch"
fn_name batch_exists = "BatchExists"
fn_name get_transfer = "GetTransfer"
fn_name get_operation = "GetOperation"
fn_name get_batch_history = "GetBatchHistory"
fn_name query_batches_by_owner = "QueryBatchesByOwner"
fn_name query_batches_by_state = "QueryBatchesByState"
fn_name (other s) = s

unfoldable pub check_command : Platform → Fn → Command → Result Command
check_command p fn c = do
  fail_if (c.schema_version /= "agrochain.command.v1") unsupported_schema_version
  fail_if (fn_name c.command /= fn_name fn) invalid_schema
  fail_if (not (valid_id c.batch_id "BAT") || not (valid_id c.operation_id "OP")) invalid_identifier
  fail_if (ltz c.expected_version (pos 0) || ltz (pos 2147483647) c.expected_version)
      version_conflict
  validate_payload p c
  ok c

unfoldable pub parse_command : Platform → Fn → Bytes → Result Command
parse_command p fn raw = do
  c ←
      decode p p.command zero_command raw (
        "schemaVersion" ∷ "operationId" ∷ "batchId" ∷ "expectedVersion" ∷ "command" ∷ "payload"
        ∷ [])
  check_command p fn c
