-- ===== src/Query.antt =====
-- The reads of queries.go, and `getConfig` of evidence.go.
pub mod Pages
pub mod Recovery
use agro_chain.Base.{
  String, Bool, true, false, not, ◌||◌, List, [], ◌∷◌, eqb, length, ◌==◌, ◌/=◌, if◌then◌else◌,
}
use agro_chain.Base.Int.{pos, ltz}
use agro_chain.Codes.{
  Result, ok, err, invalid_schema, invalid_identifier, unsupported_schema_version, invalid_page,
  unauthorized_organization, invalid_state_transition, internal_error, batch_not_found,
  transfer_not_found, operation_not_found, configuration_required, unsupported_pilot_operation,
  ◌>>=◌, ◌>>◌, fail_if,
}
use agro_chain.Text.{valid_id, member, valid_state}
use agro_chain.Model.{
  Bytes, Fn, Batch, Transfer, Receipt, Configuration, Page, get_batch, batch_exists, get_transfer,
  get_operation, get_batch_history, query_batches_by_owner, query_batches_by_state, health,
}
use agro_chain.Model.Zero.{
  zero_batch, zero_transfer, zero_receipt, zero_configuration, zero_page_input,
}
use agro_chain.Platform.{Platform, key, canonical, decode}
use agro_chain.Ledger.{Ledger, load}

-- The anonymous record that Health answers.
pub record Health : Type 0 where
  pub schema_version : String
  pub version : String
  pub writes_enabled : Bool
  pub evidence_verification : String

pub data Answer : Type 0 where
  health_answer : Health → Answer
  batch_answer : Batch → Answer
  exists_answer : Bool → Answer
  transfer_answer : Transfer → Answer
  receipt_answer : Receipt → Answer
  page_answer : Page → Answer

unfoldable pub health_of : String → Result Configuration → Result Answer
health_of release (ok c) = ok (
    health_answer (record {
      schema_version = "agrochain.health.v1";
      version = release;
      writes_enabled = true;
      evidence_verification = "REQUIRED_STAGE_4";
    }))
health_of release (err configuration_required) = ok (
    health_answer (record {
      schema_version = "agrochain.health.v1";
      version = release;
      writes_enabled = false;
      evidence_verification = "REQUIRED_STAGE_4";
    }))
health_of release (err e) = err e

-- The filter of a page, and the kind of index that it reads.
unfoldable pub check_filter : Fn → String → Result (Unit {0})
check_filter get_batch_history filter = fail_if (not (valid_id filter "BAT")) invalid_identifier
check_filter query_batches_by_owner filter = fail_if (not (member filter)) unauthorized_organization
check_filter _ filter = fail_if (not (valid_state filter)) invalid_state_transition

unfoldable pub kind_of : Fn → String
kind_of get_batch_history = "history"
kind_of query_batches_by_owner = "owner"
kind_of _ = "state"

-- A value that json.Unmarshal read without an error.
unfoldable pub whole : {A : Type 0} → A × Bool → Result A
whole (v, true) = ok v
whole (v, false) = err internal_error

module _ (p : Platform) (s : Ledger) where
  unfoldable pub get_config : Result Configuration
  get_config = do
    found ← load p.configuration s (key p "configuration" ("v1" ∷ [])) zero_configuration
    fail_if (not found.0) configuration_required
    ok found.1

  unfoldable pub history_record : Bytes → Result Bytes
  history_record v = do r ← whole (p.receipt.unmarshal zero_receipt v); canonical p p.receipt r

  unfoldable pub index_record : Bytes → Result Bytes
  index_record v = do
    id ← whole (p.text.unmarshal "" v)
    fail_if (not (valid_id id "BAT")) internal_error
    found ← load p.batch s (key p "batch" (id ∷ [])) zero_batch
    fail_if (not found.0) internal_error
    canonical p p.batch found.1

  unfoldable pub page_record : String → Bytes → Result Bytes
  page_record kind v = if kind == "history" then history_record v else index_record v

  unfoldable pub page_records : String → List Bytes → Result (List Bytes)
  page_records kind [] = ok []
  page_records kind (v ∷ vs) = do
    one ← page_record kind v
    rest ← page_records kind vs
    ok (one ∷ rest)

  unfoldable pub page_query : Fn → String → Result Page
  page_query fn arg = do
    i ←
        decode p p.page_input zero_page_input (p.bytes_of arg)
          ("schemaVersion" ∷ "filter" ∷ "pageSize" ∷ "bookmark" ∷ [])
    fail_if (i.schema_version /= "agrochain.page-request.v1") unsupported_schema_version
    fail_if (ltz i.page_size (pos 1) || ltz (pos 100) i.page_size) invalid_page
    check_filter fn i.filter
    items ← s.page (kind_of fn) (i.filter ∷ []) i.page_size i.bookmark
    records ← page_records (kind_of fn) items.0
    ok (record { schema_version = "agrochain.page.v1"; records = records; bookmark = items.1 })

  unfoldable pub find_batch : String → Result (Bool × Batch)
  find_batch arg = do
    fail_if (not (valid_id arg "BAT")) invalid_identifier
    load p.batch s (key p "batch" (arg ∷ [])) zero_batch

  -- The `switch` of `query`, for one argument.
  unfoldable pub query_one : Fn → String → String → Result Answer
  query_one get_batch actor arg = do
    found ← find_batch arg
    fail_if (not found.0) batch_not_found
    ok (batch_answer found.1)
  query_one batch_exists actor arg = do found ← find_batch arg; ok (exists_answer found.0)
  query_one get_transfer actor arg = do
    fail_if (not (valid_id arg "TRF")) invalid_identifier
    found ← load p.transfer s (key p "transfer" (arg ∷ [])) zero_transfer
    fail_if (not found.0) transfer_not_found
    ok (transfer_answer found.1)
  query_one get_operation actor arg = do
    fail_if (not (valid_id arg "OP")) invalid_identifier
    found ← load p.receipt s (key p "operation" (actor ∷ arg ∷ [])) zero_receipt
    fail_if (not found.0) operation_not_found
    ok (receipt_answer found.1)
  query_one get_batch_history actor arg = do
    page ← page_query get_batch_history arg
    ok (page_answer page)
  query_one query_batches_by_owner actor arg = do
    page ← page_query query_batches_by_owner arg
    ok (page_answer page)
  query_one query_batches_by_state actor arg = do
    page ← page_query query_batches_by_state arg
    ok (page_answer page)
  query_one _ actor arg = err unsupported_pilot_operation

  -- `query`; the release version is set when the program is built.
  unfoldable pub query : String → String → Fn → List String → Result Answer
  query release actor health [] = health_of release get_config
  query release actor health (a ∷ more) = err invalid_schema
  query release actor fn (a ∷ []) = query_one fn actor a
  query release actor fn _ = err invalid_schema
