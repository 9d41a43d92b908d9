-- ===== src/Evidence.antt =====
-- Signed source documents (evidence.go): how their JSON is read, their commitment and their signature.
pub mod Types
pub mod Bundles
pub mod Bootstrap
pub mod Trust
pub mod Commitment
pub mod Binding
use agro_chain.Base.{
  String, Bool, not, ◌||◌, List, [], ◌∷◌, ◌++◌, Option, none, some, eqb, length, codes, contains,
  ◌==◌, ◌/=◌,
}
use agro_chain.Codes.{
  Code, Result, ok, err, invalid_schema, untrusted_source_key, invalid_source_signature,
  document_hash_mismatch, ◌>>=◌, ◌>>◌, fail_if,
}
use agro_chain.Text.{valid_id, hex_id, reference}
use agro_chain.Text.Decimal.{valid_date_time}
use agro_chain.Text.Hex.{hex_bytes, hex_text, big_endian}
use agro_chain.Model.{Bytes}
use agro_chain.Model.Evidence.{Header, Bundle}
use agro_chain.Model.Evidence.Zero.{zero_source_key}
use agro_chain.Platform.{Platform, Codec, key, canonical, strict_json, decode}
use agro_chain.Ledger.{Ledger, load}

-- `const trade`, `freight` and `audit`
abbrev pub trade : String
trade = "tradePrivate"

abbrev pub freight : String
freight = "freightPrivate"

abbrev pub audit : String
audit = "retailAuditPrivate"

-- A struct type as `exact` sees it: its codec, its zero value and the tags of its fields.
pub record Tagged (A : Type 0) : Type 0 where
  pub codec : Codec A
  pub zero_value : A
  pub tags : List String

-- An error of `m` is reported as `code`.
unfoldable pub or_code {ℓ} : {A : Type ℓ} → Result A → Code → Result A
or_code (ok a) code = ok a
or_code (err e) code = err code

-- The first guard of `verifyBundle`.
unfoldable pub bad_header : Header → Bool
bad_header h =
    h.schema_version /= "agrochain.source-document.v1"
    || h.source_mode /= "SIMULATED"
    || not (valid_id h.document_id "DOC")
    || not (valid_id h.source_document_id "DOC")
    || not (valid_id h.batch_id "BAT")
    || not (valid_id h.operation_id "OP")
    || not (reference h.issuer_id)
    || not (reference h.key_id)
    || not (hex_id h.nonce)
    || not (hex_id h.commitment)
    || not (valid_date_time h.issued_at)
    || h.commitment_algorithm /= "SHA256_SALTED_JCS_V1"
    || h.signature_algorithm /= "Ed25519"

-- What is hashed for a commitment: a mark, the salt, the length of the body and the body.
unfoldable pub preimage : String → Bytes → Bytes
preimage salt body =
    codes "AgroChain/document/v1"
    ++ 0 ∷ (hex_bytes (codes salt) ++ (big_endian (length body) ++ body))

-- What is signed: a mark, and the header.
unfoldable pub signed_message : Bytes → Bytes
signed_message header = codes "AgroChain/source-signature/v1" ++ 0 ∷ header

module _ (p : Platform) where
  unfoldable pub exact : {A : Type 0} → Tagged A → Bytes → Result A
  exact t raw = decode p t.codec t.zero_value raw t.tags

  unfoldable pub encoded_exact : {V A : Type 0} → Codec V → V → Tagged A → Result A
  encoded_exact codec v t = do raw ← canonical p codec v; exact t raw

  unfoldable pub raw_bytes : Option Bytes → String → Prim.Native.Nat.ℕ → Result Bytes
  raw_bytes none v n = err invalid_schema
  raw_bytes (some b) v n = do
    fail_if (not (eqb (length b) n) || p.base64_encode b /= v) invalid_schema
    ok b

  unfoldable pub raw_url : String → Prim.Native.Nat.ℕ → Result Bytes
  unfolding raw_bytes
  raw_url v n = raw_bytes (p.base64_decode v) v n

  unfoldable pub commitment : Bytes → String → Result String
  commitment body salt = do
    fail_if (not (hex_id salt)) invalid_schema
    v ← strict_json p body
    b ← canonical p p.value v
    ok (hex_text (p.sha256 (preimage salt b)))

  module _ (s : Ledger) where
    unfoldable pub verify_bundle : Bundle → Result (Unit {0})
    verify_bundle b = do
      let h = b.envelope.header
      fail_if (bad_header h) invalid_schema
      found ← load p.source_key s (key p "sourceKey" (h.issuer_id ∷ h.key_id ∷ [])) zero_source_key
      fail_if (not found.0 || not found.1.enabled || found.1.source_system /= h.source_system)
          untrusted_source_key
      fail_if (not (contains h.document_type found.1.document_types)) untrusted_source_key
      public_key ← or_code (raw_url found.1.public_key 32) untrusted_source_key
      signature ← or_code (raw_url b.envelope.signature 64) invalid_source_signature
      message ← canonical p p.header h
      fail_if (not (p.verify_signature public_key (signed_message message) signature))
          invalid_source_signature
      c ← commitment b.body b.salt
      fail_if (c /= h.commitment) document_hash_mismatch
