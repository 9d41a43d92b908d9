-- ===== src/Codes/Messages.antt =====
-- The texts of the error codes, and `fail` (validation.go).
use agro_chain.Base.{Bool, false, String, List, [], ◌∷◌, Option, none, some, ◌==◌, if◌then◌else◌}
use agro_chain.Codes.{Code}

-- The code as the program writes it.
unfoldable pub name : Code → String
name Code.anomaly_result_mismatch = "ANOMALY_RESULT_MISMATCH"
name Code.anomaly_already_exists = "ANOMALY_ALREADY_EXISTS"
name Code.invalid_review_transition = "INVALID_REVIEW_TRANSITION"
name Code.invalid_schema = "INVALID_SCHEMA"
name Code.invalid_identifier = "INVALID_IDENTIFIER"
name Code.unsupported_schema_version = "UNSUPPORTED_SCHEMA_VERSION"
name Code.invalid_quantity = "INVALID_QUANTITY"
name Code.invalid_money = "INVALID_MONEY"
name Code.unsupported_pilot_operation = "UNSUPPORTED_PILOT_OPERATION"
name Code.unauthorized_organization = "UNAUTHORIZED_ORGANIZATION"
name Code.unauthorized_role = "UNAUTHORIZED_ROLE"
name Code.wrong_transfer_recipient = "WRONG_TRANSFER_RECIPIENT"
name Code.batch_not_found = "BATCH_NOT_FOUND"
name Code.transfer_not_found = "TRANSFER_NOT_FOUND"
name Code.operation_not_found = "OPERATION_NOT_FOUND"
name Code.batch_already_exists = "BATCH_ALREADY_EXISTS"
name Code.transfer_already_exists = "TRANSFER_ALREADY_EXISTS"
name Code.lot_already_exists = "LOT_ALREADY_EXISTS"
name Code.cost_already_exists = "COST_ALREADY_EXISTS"
name Code.report_already_exists = "REPORT_ALREADY_EXISTS"
name Code.duplicate_transaction = "DUPLICATE_TRANSACTION"
name Code.document_already_used = "DOCUMENT_ALREADY_USED"
name Code.invalid_state_transition = "INVALID_STATE_TRANSITION"
name Code.version_conflict = "VERSION_CONFLICT"
name Code.missing_evidence = "MISSING_EVIDENCE"
name Code.source_binding_mismatch = "SOURCE_BINDING_MISMATCH"
name Code.policy_mismatch = "POLICY_MISMATCH"
name Code.invalid_page = "INVALID_PAGE"
name Code.evidence_verification_unavailable = "EVIDENCE_VERIFICATION_UNAVAILABLE"
name Code.internal_error = "INTERNAL_ERROR"
name Code.configuration_required = "CONFIGURATION_REQUIRED"
name Code.configuration_already_exists = "CONFIGURATION_ALREADY_EXISTS"
name Code.untrusted_source_key = "UNTRUSTED_SOURCE_KEY"
name Code.invalid_source_signature = "INVALID_SOURCE_SIGNATURE"
name Code.document_hash_mismatch = "DOCUMENT_HASH_MISMATCH"
name Code.source_nonce_already_used = "SOURCE_NONCE_ALREADY_USED"
name Code.source_claim_rejected = "SOURCE_CLAIM_REJECTED"
name Code.private_data_access_denied = "PRIVATE_DATA_ACCESS_DENIED"
name Code.private_data_unavailable = "PRIVATE_DATA_UNAVAILABLE"
name Code.document_not_found = "DOCUMENT_NOT_FOUND"

pub record Message : Type 0 where
  pub code : String
  pub text : String

abbrev message : String → String → Message
message c t = record { code = c; text = t }

-- `var messages`
unfoldable pub messages : List Message
messages =
    message "ANOMALY_RESULT_MISMATCH" "Proposed analysis does not match committed inputs."
    ∷ message "ANOMALY_ALREADY_EXISTS" "Report has already been evaluated."
    ∷ message "INVALID_REVIEW_TRANSITION" "Review action is not allowed in the current state."
    ∷ message "INVALID_SCHEMA" "Invalid fields or JSON encoding."
    ∷ message "INVALID_IDENTIFIER" "Invalid identifier."
    ∷ message "UNSUPPORTED_SCHEMA_VERSION" "Unsupported schema version."
    ∷ message "INVALID_QUANTITY" "Quantity must match the positive whole batch."
    ∷ message "INVALID_MONEY" "Invalid integer monetary value, currency or tax basis."
    ∷ message "UNSUPPORTED_PILOT_OPERATION" "This operation is not supported by the pilot."
    ∷ message "UNAUTHORIZED_ORGANIZATION" "Organization is not permitted for this operation."
    ∷ message "UNAUTHORIZED_ROLE" "Certificate role is not permitted for this operation."
    ∷ message "WRONG_TRANSFER_RECIPIENT" "Only the intended recipient may accept this transfer."
    ∷ message "BATCH_NOT_FOUND" "Batch does not exist."
    ∷ message "TRANSFER_NOT_FOUND" "Transfer does not exist for this batch."
    ∷ message "OPERATION_NOT_FOUND" "Operation does not exist within caller visibility."
    ∷ message "BATCH_ALREADY_EXISTS" "Batch already exists."
    ∷ message "TRANSFER_ALREADY_EXISTS" "Transfer identifier already exists."
    ∷ message "LOT_ALREADY_EXISTS" "Retail lot already exists."
    ∷ message "COST_ALREADY_EXISTS" "Freight cost already exists."
    ∷ message "REPORT_ALREADY_EXISTS" "Retail report already exists."
    ∷ message "DUPLICATE_TRANSACTION" "Operation already committed; query the original receipt."
    ∷ message "DOCUMENT_ALREADY_USED" "Document reference already consumed."
    ∷ message "INVALID_STATE_TRANSITION" "Operation is not allowed in the current state."
    ∷ message "VERSION_CONFLICT" "Expected batch version does not match."
    ∷ message "MISSING_EVIDENCE" "Required verified evidence is missing."
    ∷ message "SOURCE_BINDING_MISMATCH" "Verified evidence does not match the batch."
    ∷ message "POLICY_MISMATCH" "Report policy does not match the verified policy."
    ∷ message "INVALID_PAGE" "Invalid page size or bookmark."
    ∷ message "EVIDENCE_VERIFICATION_UNAVAILABLE"
        "Stage 3 writes are disabled pending Stage 4 evidence and privacy verification."
    ∷ message "INTERNAL_ERROR" "Ledger operation failed."
    ∷ message "CONFIGURATION_REQUIRED" "Initialize trusted sources before business operations."
    ∷ message "CONFIGURATION_ALREADY_EXISTS"
        "Trust configuration is immutable and already initialized."
    ∷ message "UNTRUSTED_SOURCE_KEY" "Source key is not enabled for this claim."
    ∷ message "INVALID_SOURCE_SIGNATURE" "Source signature verification failed."
    ∷ message "DOCUMENT_HASH_MISMATCH" "Document does not match committed evidence."
    ∷ message "SOURCE_NONCE_ALREADY_USED" "Source nonce has already been consumed."
    ∷ message "SOURCE_CLAIM_REJECTED" "Source assertion does not authorize this operation."
    ∷ message "PRIVATE_DATA_ACCESS_DENIED" "Identity cannot access this private record."
    ∷ message "PRIVATE_DATA_UNAVAILABLE" "Required private bytes are unavailable on this peer."
    ∷ message "DOCUMENT_NOT_FOUND" "Document does not exist."
    ∷ []

-- A read of a Go map of texts.
unfoldable pub text_of : String → List Message → Option String
text_of c [] = none
text_of c (m ∷ ms) = if m.code == c then some m.text else text_of c ms

pub record DomainError : Type 0 where
  pub schema_version : String
  pub code : String
  pub message : String
  pub retryable : Bool

or_internal : Option String → String → Option String → DomainError
or_internal (some text) code fallback = record {
  schema_version = "agrochain.error.v1";
  code = code;
  message = text;
  retryable = false;
}
or_internal none code (some text) = record {
  schema_version = "agrochain.error.v1";
  code = "INTERNAL_ERROR";
  message = text;
  retryable = false;
}
or_internal none code none = record {
  schema_version = "agrochain.error.v1";
  code = "INTERNAL_ERROR";
  message = "";
  retryable = false;
}

-- A code without a message becomes INTERNAL_ERROR.
unfoldable pub fail : String → DomainError
unfolding text_of messages or_internal
fail code = or_internal (text_of code messages) code (text_of "INTERNAL_ERROR" messages)
