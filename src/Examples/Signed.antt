-- ===== src/Examples/Signed.antt =====
-- A signed document that verifyBundle accepts, and its opening.
use agro_chain.Text.Hex.{big_endian, hex_bytes, hex_text, hex_value}
use agro_chain.Text.Decimal.{
  digits_value, format_010, format_int, integer, parse_int, valid_date, valid_date_time,
}
use agro_chain.Text.{
  has_prefix, hex_id, identifier, identifier_rest, member, reference, safe_string,
  valid_explanation, valid_id, valid_state,
}
use agro_chain.Base.{◌↔◌, ◌==◌, String, true, [], ◌∷◌, some, ◌≡◌, refl, eqb, length, if◌then◌else◌}
use agro_chain.Codes.{fail_if, ok, ◌>>=◌}
use agro_chain.Json.{
  Stream, array_loop, close_object, document, eof, expect_array, expect_object, explanation,
  find_field, key_ok, number_ok, object_loop, open_object, read_document, scalar, size, text, tok,
  token_value,
}
use agro_chain.Model.{Bytes, SourceKey}
use agro_chain.Model.Evidence.{Header, Bundle}
use agro_chain.Platform.{Platform, as_object, canonical, decode, key, missing, or_fail, strict_json}
use agro_chain.Ledger.{
  Ledger, absent, absent_bytes, assign, flush, keys, load, load_bytes, op_of, overlay, plan_ops,
  planned, put_value, sort_texts, stage, unmarshalled,
}
use agro_chain.Evidence.{
  bad_header, commitment, encoded_exact, exact, or_code, preimage, raw_bytes, raw_url,
  signed_message, verify_bundle,
}
use agro_chain.Evidence.Binding.{SameOrCollision, commitment_binding}
use agro_chain.Evidence.Trust.{IsTrusted, verify_bundle_iff}
use agro_chain.Private.{
  analysis_answer, analysis_query, collection_for, collection_of, may_read, opening_answer,
  opening_result, private_answer, private_query, record_query, review_action_of, review_actions,
  verify_opening,
}
use agro_chain.Private.Openings.{Opened, verify_opening-Opened}
use agro_chain.Provider.{Transient, entry_of}
use agro_chain.Examples.Data.{tx, create_tokens}
use agro_chain.Examples.World.{world, on_the_road, constant}

abbrev pub zeros : Bytes
zeros =
    0 ∷ 0 ∷ 0 ∷ 0 ∷ 0 ∷ 0 ∷ 0 ∷ 0 ∷ 0 ∷ 0 ∷ 0 ∷ 0 ∷ 0 ∷ 0 ∷ 0 ∷ 0 ∷ 0 ∷ 0 ∷ 0 ∷ 0 ∷ 0 ∷ 0 ∷ 0 ∷ 0
    ∷ 0 ∷ 0 ∷ 0 ∷ 0 ∷ 0 ∷ 0 ∷ 0 ∷ 0 ∷ []

abbrev pub ones : Bytes
ones =
    1 ∷ 1 ∷ 1 ∷ 1 ∷ 1 ∷ 1 ∷ 1 ∷ 1 ∷ 1 ∷ 1 ∷ 1 ∷ 1 ∷ 1 ∷ 1 ∷ 1 ∷ 1 ∷ 1 ∷ 1 ∷ 1 ∷ 1 ∷ 1 ∷ 1 ∷ 1 ∷ 1
    ∷ 1 ∷ 1 ∷ 1 ∷ 1 ∷ 1 ∷ 1 ∷ 1 ∷ 1 ∷ 1 ∷ 1 ∷ 1 ∷ 1 ∷ 1 ∷ 1 ∷ 1 ∷ 1 ∷ 1 ∷ 1 ∷ 1 ∷ 1 ∷ 1 ∷ 1 ∷ 1 ∷ 1
    ∷ 1 ∷ 1 ∷ 1 ∷ 1 ∷ 1 ∷ 1 ∷ 1 ∷ 1 ∷ 1 ∷ 1 ∷ 1 ∷ 1 ∷ 1 ∷ 1 ∷ 1 ∷ 1 ∷ []

abbrev zero_hash : String
zero_hash = "0000000000000000000000000000000000000000000000000000000000000000"

abbrev pub good_header : Header
good_header = record {
  schema_version = "agrochain.source-document.v1";
  document_id = "DOC-00000001";
  source_system = "CKS";
  source_mode = "SIMULATED";
  issuer_id = "ISSUER_1";
  key_id = "KEY_1";
  source_document_id = "DOC-00000009";
  document_type = "PRODUCER_ELIGIBILITY";
  batch_id = "BAT-00000001";
  operation_id = "OP-00000001";
  issued_at = "2024-02-29T12:00:00.000Z";
  nonce = zero_hash;
  commitment_algorithm = "SHA256_SALTED_JCS_V1";
  commitment = zero_hash;
  signature_algorithm = "Ed25519";
}

abbrev pub good_bundle : Bundle
good_bundle = record {
  envelope = record { header = good_header; signature = "sig" };
  body = 1 ∷ [];
  salt = tx;
}

abbrev pub good_key : SourceKey
good_key = record {
  schema_version = "agrochain.source-key.v1";
  source_system = "CKS";
  issuer_id = "ISSUER_1";
  key_id = "KEY_1";
  public_key = "key";
  document_types = "PRODUCER_ELIGIBILITY" ∷ [];
  enabled = true;
}

abbrev opening_tokens : Stream
opening_tokens = tok open_object (
    tok (text "body") (
      tok open_object
        (tok close_object (tok (text "saltHex") (tok (text "00") (tok close_object eof))))))

-- A platform whose codecs read that document and its key: the key is 32 bytes, the signature 64.
abbrev pub trusting : Platform
trusting = record world {
  tokens =
      λ raw. elim raw [ [] ↦ eof | c ∷ cs ↦ if eqb c 4 then opening_tokens else create_tokens ];
  source_key = constant good_key;
  envelope = constant (good_bundle.envelope);
  opening = constant (record { body = 1 ∷ []; salt = tx });
  base64_decode = λ v. if v == "key" then some zeros else some ones;
  base64_encode = λ b. if eqb (length b) 32 then "key" else "sig";
  sha256 = λ b. zeros;
}

-- Every key is there.
abbrev pub full : Ledger
full = record on_the_road { read = λ k. some (123 ∷ []) }

trusted : verify_bundle trusting full good_bundle ≡ ok tt
unfolding or_code bad_header preimage signed_message exact encoded_exact raw_bytes raw_url
    commitment verify_bundle identifier_rest identifier hex_id reference has_prefix valid_id
    safe_string valid_explanation member valid_state integer digits_value parse_int format_int
    format_010 valid_date valid_date_time hex_value hex_bytes hex_text big_endian unmarshalled
    load_bytes load absent_bytes absent assign planned overlay put_value sort_texts keys op_of stage
    plan_ops flush ◌>>=◌ fail_if or_fail key canonical strict_json as_object missing decode
    expect_array expect_object key_ok number_ok scalar explanation array_loop object_loop
    token_value document read_document find_field size
trusted = refl

-- The hash of this platform is the same for all bytes, so two salts have one commitment.
committed_tx : commitment trusting (1 ∷ []) tx ≡ ok zero_hash
unfolding or_code bad_header preimage signed_message exact encoded_exact raw_bytes raw_url
    commitment verify_bundle identifier_rest identifier hex_id reference has_prefix valid_id
    safe_string valid_explanation member valid_state integer digits_value parse_int format_int
    format_010 valid_date valid_date_time hex_value hex_bytes hex_text big_endian unmarshalled
    load_bytes load absent_bytes absent assign planned overlay put_value sort_texts keys op_of stage
    plan_ops flush ◌>>=◌ fail_if or_fail key canonical strict_json as_object missing decode
    expect_array expect_object key_ok number_ok scalar explanation array_loop object_loop
    token_value document read_document find_field size
committed_tx = refl

committed_zeros : commitment trusting (1 ∷ []) zero_hash ≡ ok zero_hash
unfolding or_code bad_header preimage signed_message exact encoded_exact raw_bytes raw_url
    commitment verify_bundle identifier_rest identifier hex_id reference has_prefix valid_id
    safe_string valid_explanation member valid_state integer digits_value parse_int format_int
    format_010 valid_date valid_date_time hex_value hex_bytes hex_text big_endian unmarshalled
    load_bytes load absent_bytes absent assign planned overlay put_value sort_texts keys op_of stage
    plan_ops flush ◌>>=◌ fail_if or_fail key canonical strict_json as_object missing decode
    expect_array expect_object key_ok number_ok scalar explanation array_loop object_loop
    token_value document read_document find_field size
committed_zeros = refl

commitment_binding_example : SameOrCollision trusting (1 ∷ []) (1 ∷ []) tx zero_hash
commitment_binding_example =
    commitment_binding trusting (λ m. refl) (1 ∷ []) (1 ∷ []) tx zero_hash zero_hash committed_tx
      committed_zeros

verify_bundle_iff_example :
    (verify_bundle trusting full good_bundle ≡ ok tt) ↔ IsTrusted trusting full good_bundle
verify_bundle_iff_example = verify_bundle_iff trusting full good_bundle

abbrev opened_by : Transient
opened_by = ("opening", 4 ∷ []) ∷ []

opened :
    verify_opening trusting full "RetailerMSP" "retailer" "DOC-00000001" opened_by
    ≡ ok (opening_answer (opening_result "DOC-00000001"))
unfolding may_read collection_of collection_for opening_result review_action_of review_actions
    analysis_answer analysis_query private_answer record_query private_query verify_opening entry_of
    or_code bad_header preimage signed_message exact encoded_exact raw_bytes raw_url commitment
    verify_bundle identifier_rest identifier hex_id reference has_prefix valid_id safe_string
    valid_explanation member valid_state integer digits_value parse_int format_int format_010
    valid_date valid_date_time hex_value hex_bytes hex_text big_endian unmarshalled load_bytes load
    absent_bytes absent assign planned overlay put_value sort_texts keys op_of stage plan_ops flush
    ◌>>=◌ fail_if or_fail key canonical strict_json as_object missing decode expect_array
    expect_object key_ok number_ok scalar explanation array_loop object_loop token_value document
    read_document find_field size
opened = refl

verify_opening-Opened_example :
    Opened trusting full "RetailerMSP" "retailer" "DOC-00000001" opened_by
      (opening_answer (opening_result "DOC-00000001"))
verify_opening-Opened_example =
    verify_opening-Opened trusting full "RetailerMSP" "retailer" "DOC-00000001" opened_by
      (opening_answer (opening_result "DOC-00000001")) opened
