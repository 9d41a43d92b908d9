-- ===== src/Provider.antt =====
-- The evidence provider `realEvidence` (private.go): the documents that a command needs, their checks,
-- what they claim, and what they leave in public and private data.
pub mod Claims
pub mod Review
pub mod Prepare
pub mod Keys
pub mod Documents
pub mod Analysis
pub mod Reviews
pub mod Exact
use agro_chain.Base.{
  ℕ, ◌+◌, String, Bool, true, false, not, ◌&&◌, ◌||◌, List, [], ◌∷◌, ◌++◌, Option, none, some, eqb,
  length, ◌==◌, ◌/=◌, if◌then◌else◌,
}
use agro_chain.Base.Int.{pos}
use agro_chain.Codes.{
  Code, Result, ok, err, invalid_schema, missing_evidence, internal_error, document_already_used,
  source_nonce_already_used, private_data_unavailable, evidence_verification_unavailable, ◌>>=◌,
  ◌>>◌, fail_if,
}
use agro_chain.Text.{hex_id}
use agro_chain.Model.{
  Bytes, Fn, Command, Batch, EvidenceRefs, create_batch, offer_pickup, record_freight_cost,
  report_retail_price,
}
use agro_chain.Model.Evidence.{Header, Bundle, UseRecord}
use agro_chain.Json.{Value, str}
use agro_chain.Platform.{Platform, Codec, key, canonical, strict_json}
use agro_chain.Ledger.{Ledger, WritePlan, planned, put_value, absent}
use agro_chain.Step.{Execution, Verified}
use agro_chain.Evidence.Bundles.{decode_bundles}

-- `map[string][]byte`, each key once.
abbrev pub Transient : Type 0
Transient = List (String × Bytes)

-- `t[k]`, nil if it is missing.
unfoldable pub entry_of : String → Transient → Bytes
entry_of k [] = []
entry_of k ((j, v) ∷ t) = if j == k then v else entry_of k t

abbrev pub no_evidence : Verified
no_evidence = record {
  public = [];
  private = [];
  cks = "";
  purchase = "";
  hks = "";
  manifest = "";
  quantity = pos 0;
  purchase_price = pos 0;
  purchase_total = pos 0;
  freight_total = pos 0;
  retail_price = pos 0;
  currency = "";
  tax_basis = "";
  policy_id = "";
}

-- `closedEvidence`, a provider that accepts nothing.
unfoldable pub closed_evidence : Command → Batch → EvidenceRefs → Result Verified
closed_evidence c b refs = err evidence_verification_unavailable

-- `required`: the document types that a command needs, with their source systems.
unfoldable pub required_of : Fn → List (String × String)
required_of create_batch = ("PRODUCER_ELIGIBILITY", "CKS") ∷ []
required_of offer_pickup =
    ("PURCHASE_INVOICE", "EFATURA")
    ∷ ("TRADE_NOTIFICATION", "HKS")
    ∷ ("TRANSPORT_MANIFEST", "UETDS")
    ∷ []
required_of record_freight_cost = ("FREIGHT_INVOICE", "EFATURA") ∷ []
required_of _ = []

-- `extra`
unfoldable pub extra_of : Fn → String
extra_of record_freight_cost = "recordSaltHex"
extra_of report_retail_price = "retailReportInput"
extra_of _ = ""

-- `len(required) > 0`
unfoldable pub any_required : List (String × String) → Bool
any_required [] = false
any_required (r ∷ rs) = true

unfoldable pub expected_entries : Fn → ℕ
expected_entries fn =
    (if any_required (required_of fn) then 1 else 0) + (if extra_of fn /= "" then 1 else 0)

unfoldable pub unknown_entry : Fn → Transient → Bool
unknown_entry fn [] = false
unknown_entry fn ((k, v) ∷ t) =
    (k /= extra_of fn && not (k == "evidence" && any_required (required_of fn)))
    || unknown_entry fn t

unfoldable pub check_transient : Fn → Transient → Result (Unit {0})
check_transient fn t = do
  fail_if (not (eqb (length t) (expected_entries fn))) missing_evidence
  fail_if (unknown_entry fn t) invalid_schema

-- `required[type]`, "" if it is missing, and `delete(required, type)`.
unfoldable pub system_for : String → List (String × String) → String
system_for type [] = ""
system_for type ((t, system) ∷ rs) = if t == type then system else system_for type rs

unfoldable pub without : String → List (String × String) → List (String × String)
without type [] = []
without type ((t, system) ∷ rs) =
    let rest = without type rs in if t == type then rest else (t, system) ∷ rest

-- `_, ok := v.Public[k]`
unfoldable pub unused_in : Option (Option Bytes) → Code → Result (Unit {0})
unused_in none code = ok tt
unused_in (some v) code = err code

-- `raw.(string)`, which `hexID` matches.
unfoldable pub salt_of : Value → Result String
salt_of (str s) = do fail_if (not (hex_id s)) invalid_schema; ok s
salt_of _ = err invalid_schema

-- `media`
unfoldable pub media : String → String → Bool
media digest kind =
    hex_id digest
    && (kind == "application/xml" || kind == "application/json" || kind == "application/pdf")

unfoldable pub private_bytes : {A : Type 0} → Codec A → A → Option Bytes → Result A
private_bytes codec zero_value none = err private_data_unavailable
private_bytes codec zero_value (some []) = err private_data_unavailable
private_bytes codec zero_value (some (b ∷ bs)) = do
  fail_if (not (codec.unmarshal zero_value (b ∷ bs)).1) internal_error
  ok (codec.unmarshal zero_value (b ∷ bs)).0

-- `privateLoad`
unfoldable pub private_load : {A : Type 0} → Codec A → A → Ledger → String → String → Result A
unfolding private_bytes
private_load codec zero_value s collection k =
    private_bytes codec zero_value (s.read_private collection k)

module _ (p : Platform) where
  -- `verified.private`
  unfoldable pub add_private :
      {A : Type 0} → Codec A → String → String → A → Verified → Result Verified
  add_private codec collection k value v = do
    raw ← canonical p codec value
    ok (record v {
      private = v.private ++ record { collection = collection; key = k; value = raw } ∷ [];
    })

  -- `readSalt`
  unfoldable pub read_salt : Transient → String → Result String
  read_salt t name = strict_json p (entry_of name t) >>= salt_of

  module _ (s : Ledger) (c : Command) (x : Execution) where
    unfoldable pub use_record : UseRecord
    use_record = record { batch_id = c.batch_id; operation_id = c.operation_id; tx_id = x.tx_id }

    -- One of the three uses of a document.
    unfoldable pub use_once : String → Code → WritePlan → Result WritePlan
    use_once k code plan = do
      unused_in (planned k plan) code
      absent s k code
      put_value p p.use_record k use_record plan

    -- The uses, and the envelope in place of the first.
    unfoldable pub record_uses : Bundle → WritePlan → Result WritePlan
    record_uses b plan = do
      let h = b.envelope.header
      plan₁ ← use_once (key p "document" (h.document_id ∷ [])) document_already_used plan
      plan₂ ←
          use_once (key p "sourceUse" (h.issuer_id ∷ h.source_document_id ∷ []))
            document_already_used plan₁
      plan₃ ←
          use_once (key p "nonceUse" (h.issuer_id ∷ h.nonce ∷ [])) source_nonce_already_used plan₂
      put_value p p.envelope (key p "document" (h.document_id ∷ [])) b.envelope plan₃

  -- The documents of the transient data.
  unfoldable pub documents_for : Fn → Transient → Result (List Bundle)
  documents_for fn t =
      if any_required (required_of fn)
      then (decode_bundles p (entry_of "evidence" t) >>= λ ds.
          fail_if (not (eqb (length ds) (length (required_of fn)))) missing_evidence >> ok ds)
      else ok []
