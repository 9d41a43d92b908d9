-- ===== src/Platform.antt =====
-- What the chaincode calls and does not implement, as a record of functions: composite keys of the
-- Fabric shim, and encoding/json. `canonical` and `decode` of validation.go are written over it.
-- `shim.CreateCompositeKey` refuses only attributes that are no UTF-8 or hold U+0000 or U+10FFFF; the
-- program panics then, which is not modelled.
pub mod Decode
use agro_chain.Base.{
  String, Bool, true, false, not, ◌||◌, List, [], ◌∷◌, Option, none, some, ltb, eqb, length,
}
use agro_chain.Codes.{Result, ok, err, invalid_schema, internal_error, ◌>>=◌, ◌>>◌, fail_if}
use agro_chain.Model.{
  Bytes, Command, Batch, EvidenceRefs, Transfer, Receipt, Event, Lot, CreateInput, HandoffInput,
  FreightInput, ReportInput, AnalysisInput, DocumentUse, Configuration, PageInput, SourceKey,
}
use agro_chain.Model.Evidence.{
  Header, Envelope, Bundle, Opening, SourceRecord, Policy, UseRecord, Eligibility, PurchaseBody,
  Notification, Manifest, FreightBody, CostRecord, RetailInput, RetailRecord, AnomalyRecord,
  EvaluationReference, ReviewInput, ReviewAction,
}
use agro_chain.Score.{Score}
use agro_chain.Json.{Value, obj, Fields, Stream, read_document, find_field, size}

-- json.Marshal of a type, and json.Unmarshal into a value that is there before: it returns the value
-- afterwards and whether there was no error.
pub record Codec (A : Type 0) : Type 0 where
  pub marshal : A → Option Bytes
  pub unmarshal : A → Bytes → A × Bool

pub record Platform : Type 0 where
  pub composite_key : String → List String → String
  pub tokens : Bytes → Stream
  -- The bytes of a text, `[]byte(s)`.
  pub bytes_of : String → Bytes
  pub utf8_valid : Bytes → Bool
  -- Decode with UseNumber, and Encode with SetEscapeHTML(false).
  pub decode_any : Bytes → Option Value
  pub encode_any : Value → Option Bytes
  pub command : Codec Command
  pub batch : Codec Batch
  pub refs : Codec EvidenceRefs
  pub transfer : Codec Transfer
  pub receipt : Codec Receipt
  pub event : Codec Event
  pub lot : Codec Lot
  pub text : Codec String
  pub document_use : Codec DocumentUse
  pub create_input : Codec CreateInput
  pub handoff_input : Codec HandoffInput
  pub freight_input : Codec FreightInput
  pub report_input : Codec ReportInput
  pub analysis_input : Codec AnalysisInput
  pub configuration : Codec Configuration
  pub page_input : Codec PageInput
  pub value : Codec Value
  pub source_key : Codec SourceKey
  pub header : Codec Header
  pub envelope : Codec Envelope
  pub bundle : Codec Bundle
  pub opening : Codec Opening
  pub source_record : Codec SourceRecord
  pub policy : Codec Policy
  pub use_record : Codec UseRecord
  pub eligibility : Codec Eligibility
  pub purchase_body : Codec PurchaseBody
  pub notification : Codec Notification
  pub manifest : Codec Manifest
  pub freight_body : Codec FreightBody
  pub cost_record : Codec CostRecord
  pub retail_input : Codec RetailInput
  pub retail_record : Codec RetailRecord
  pub anomaly_record : Codec AnomalyRecord
  pub evaluation_reference : Codec EvaluationReference
  pub review_input : Codec ReviewInput
  pub review_action : Codec ReviewAction
  pub score : Codec Score
  -- encoding/base64 without padding, crypto/sha256 and crypto/ed25519.
  pub base64_decode : String → Option Bytes
  pub base64_encode : Bytes → String
  pub sha256 : Bytes → Bytes
  pub verify_signature : Bytes → Bytes → Bytes → Bool

-- `bytes.TrimSuffix(b, []byte{'\n'})`
trim_newline : Bytes → Bytes
trim_newline [] = []
trim_newline (c ∷ []) = elim (eqb c 10) [ true ↦ [] | false ↦ c ∷ [] ]
trim_newline (c ∷ cs) = c ∷ trim_newline cs

unfoldable pub or_fail {ℓ} : {A : Type ℓ} → Option A → Result A
or_fail none = err internal_error
or_fail (some a) = ok a

module _ (p : Platform) where
  unfoldable pub key : String → List String → String
  key kind attrs = p.composite_key kind attrs

  unfoldable pub canonical : {A : Type 0} → Codec A → A → Result Bytes
  unfolding trim_newline
  canonical codec v = do
    b ← or_fail (codec.marshal v)
    x ← or_fail (p.decode_any b)
    out ← or_fail (p.encode_any x)
    ok (trim_newline out)

  unfoldable pub strict_json : Bytes → Result Value
  strict_json raw = do
    fail_if (eqb (length raw) 0 || ltb 65536 (length raw) || not (p.utf8_valid raw)) invalid_schema
    read_document (p.tokens raw)

  -- `m, ok := v.(map[string]any)`
  unfoldable pub as_object : Value → Result Fields
  as_object (obj fs) = ok fs
  as_object _ = err invalid_schema

  unfoldable pub missing : List String → Fields → Bool
  missing [] fs = false
  missing (k ∷ ks) fs = elim (find_field k fs) [ none ↦ true | some v ↦ missing ks fs ]

  unfoldable pub decode : {A : Type 0} → Codec A → A → Bytes → List String → Result A
  decode codec dst raw fields = do
    v ← strict_json raw
    m ← as_object v
    fail_if (not (eqb (size m) (length fields)) || missing fields m) invalid_schema
    fail_if (not (codec.unmarshal dst raw).1) invalid_schema
    ok (codec.unmarshal dst raw).0
