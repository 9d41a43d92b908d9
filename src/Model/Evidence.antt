-- ===== src/Model/Evidence.antt =====
-- The records of evidence.go, private.go and analysis.go. An embedded struct is a field, `input` or
-- `score`, whose JSON fields stand among the others.
pub mod Zero
use agro_chain.Base.{String, Bool}
use agro_chain.Base.Int.{ℤ}
use agro_chain.Score.{Score}
use agro_chain.Model.{Bytes, SourceKey}

-- `header`, `envelope`, `bundle` and `opening` of evidence.go.
pub record Header : Type 0 where
  pub schema_version : String
  pub document_id : String
  pub source_system : String
  pub source_mode : String
  pub issuer_id : String
  pub key_id : String
  pub source_document_id : String
  pub document_type : String
  pub batch_id : String
  pub operation_id : String
  pub issued_at : String
  pub nonce : String
  pub commitment_algorithm : String
  pub commitment : String
  pub signature_algorithm : String

pub record Envelope : Type 0 where
  pub header : Header
  pub signature : String

pub record Bundle : Type 0 where
  pub envelope : Envelope
  pub body : Bytes
  pub salt : String

pub record Opening : Type 0 where
  pub body : Bytes
  pub salt : String

-- What `bootstrap` stores: a source key with its transaction, and the price policy.
pub record SourceRecord : Type 0 where
  pub source : SourceKey
  pub created_tx_id : String

pub record Policy : Type 0 where
  pub schema_version : String
  pub policy_id : String
  pub rule_version : String
  pub threshold_bps : ℤ
  pub currency : String
  pub tax_basis : String
  pub comparison : String
  pub created_tx_id : String

-- What `prepare` stores for a document, a source document and a nonce that are used.
pub record UseRecord : Type 0 where
  pub batch_id : String
  pub operation_id : String
  pub tx_id : String

-- The claims of the source documents (`prepare` and the bodies of private.go).
pub record Eligibility : Type 0 where
  pub producer : String
  pub product : String
  pub grade : String
  pub quantity : ℤ
  pub region : String
  pub harvest : String
  pub eligible : Bool

pub record PurchaseBody : Type 0 where
  pub seller : String
  pub buyer : String
  pub quantity : ℤ
  pub price : ℤ
  pub total : ℤ
  pub currency : String
  pub tax : String
  pub digest : String
  pub media_type : String

pub record Notification : Type 0 where
  pub producer : String
  pub retailer : String
  pub product : String
  pub quantity : ℤ
  pub notified : Bool

pub record Manifest : Type 0 where
  pub carrier : String
  pub consignor : String
  pub consignee : String
  pub product : String
  pub quantity : ℤ
  pub departure : String

pub record FreightBody : Type 0 where
  pub carrier : String
  pub payer : String
  pub quantity : ℤ
  pub total : ℤ
  pub currency : String
  pub tax : String
  pub digest : String
  pub media_type : String

-- The private records of private.go.
pub record CostRecord : Type 0 where
  pub schema_version : String
  pub cost_id : String
  pub batch_id : String
  pub kind : String
  pub payer : String
  pub payee : String
  pub quantity : ℤ
  pub total : ℤ
  pub currency : String
  pub tax : String
  pub source_document_id : String
  pub salt : String
  pub operation_id : String
  pub tx_id : String

pub record RetailInput : Type 0 where
  pub price : ℤ
  pub currency : String
  pub tax : String
  pub reported_at : String
  pub salt : String

pub record RetailRecord : Type 0 where
  pub schema_version : String
  pub report_id : String
  pub batch_id : String
  pub lot_id : String
  pub quantity : ℤ
  pub retailer : String
  pub input : RetailInput
  pub purchase_id : String
  pub cost_id : String
  pub policy_id : String
  pub operation_id : String
  pub tx_id : String

-- The records of analysis.go.
pub record AnomalyRecord : Type 0 where
  pub schema_version : String
  pub anomaly_id : String
  pub batch_id : String
  pub report_id : String
  pub policy_id : String
  pub rule : String
  pub purchase : ℤ
  pub retail : ℤ
  pub freight : ℤ
  pub quantity : ℤ
  pub score : Score
  pub threshold : ℤ
  pub review_state : String
  pub salt : String
  pub operation_id : String
  pub tx_id : String

pub record EvaluationReference : Type 0 where
  pub schema_version : String
  pub batch_id : String
  pub report_id : String
  pub anomaly_id : String
  pub tx_id : String

pub record ReviewInput : Type 0 where
  pub reviewer : String
  pub outcome : String
  pub explanation : String
  pub salt : String

pub record ReviewAction : Type 0 where
  pub schema_version : String
  pub operation_id : String
  pub anomaly_id : String
  pub action : String
  pub input : ReviewInput
  pub tx_id : String
