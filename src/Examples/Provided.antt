-- ===== src/Examples/Provided.antt =====
-- Evidence that is accepted: a bootstrap, and the document of a CreateBatch.
use agro_chain.Text.Hex.{big_endian, hex_bytes, hex_text, hex_value}
use agro_chain.Text.Decimal.{
  digits_value, format_010, format_int, integer, parse_int, valid_date, valid_date_time,
}
use agro_chain.Query.{
  check_filter, find_batch, get_config, health_of, history_record, index_record, kind_of,
  page_query, page_record, page_records, query, query_one, whole,
}
use agro_chain.Provider.Claims.{
  claim, cost_of, eligibility_claim, freight_claim, manifest_claim, notification_claim,
  purchase_claim,
}
use agro_chain.Text.{
  has_prefix, hex_id, identifier, identifier_rest, member, reference, safe_string,
  valid_explanation, valid_id, valid_state,
}
use agro_chain.Auth.{allowed, authorize, expected, is_health, role_check, wrong_actor}
use agro_chain.Evidence.Bundles.{as_array, bundles_of, decode_bundle, decode_bundles, member_of}
use agro_chain.Base.{
  length, ℕ, String, true, List, [], ◌∷◌, some, ◌≡◌, refl, map, eqb, All, codes, if◌then◌else◌,
  ◌==◌,
}
use agro_chain.Base.Int.{pos}
use agro_chain.Codes.{Result, err, fail_if, ok, ◌>>=◌}
use agro_chain.Json.{
  Stream, Value, array_loop, close_array, close_object, document, eof, expect_array, expect_object,
  explanation, find_field, key_ok, null, number_ok, obj, object_loop, open_array, open_object,
  read_document, scalar, size, str, text, tok, token_value,
}
use agro_chain.Model.{Bytes, Configuration, SourceKey}
use agro_chain.Model.Evidence.{Bundle, Eligibility}
use agro_chain.Platform.{Platform, as_object, canonical, decode, key, missing, or_fail, strict_json}
use agro_chain.Ledger.{
  Ledger, WritePlan, absent, absent_bytes, assign, flush, keys, load, load_bytes, op_of, overlay,
  plan_ops, planned, put_value, sort_texts, stage, unmarshalled,
}
use agro_chain.Step.{Execution, Verified}
use agro_chain.Evidence.{
  bad_header, commitment, encoded_exact, exact, or_code, preimage, raw_bytes, raw_url,
  signed_message, verify_bundle,
}
use agro_chain.Evidence.Commitment.{read_preimage, read_preimage-preimage}
use agro_chain.Evidence.Bootstrap.{
  add_source, add_sources, answer_config, bad_configuration, bad_source, bootstrap, bootstrap_plan,
  check_sources, policy_of, same_texts, typed, types_of, write_bootstrap,
}
use agro_chain.Evidence.Bootstrap.Systems.{bootstrap_plan-systems}
use agro_chain.Provider.{
  Transient, add_private, any_required, check_transient, documents_for, entry_of, expected_entries,
  extra_of, media, no_evidence, private_bytes, private_load, read_salt, record_uses, required_of,
  salt_of, system_for, unknown_entry, unused_in, use_once, use_record, without,
}
use agro_chain.Provider.Documents.{IsTaken, DistinctTypes, document_evidence-IsTaken}
use agro_chain.Provider.Prepare.{
  bad_prices, document_evidence, prepare, prepare_for, report_evidence, retail_evidence, retail_of,
  take_document, take_documents,
}
use agro_chain.Examples.Data.{tx, now, carried, carried_refs, create_command}
use agro_chain.Examples.Keys.{escaped_key}
use agro_chain.Examples.Signed.{good_bundle, good_key, trusting}
use agro_chain.Examples.World.{empty, constant, producer}

salt_hex : hex_id tx ≡ true
unfolding hex_id
salt_hex = refl

abbrev small_body : Bytes
small_body = 1 ∷ []

read_preimage-preimage_example :
    read_preimage (preimage tx small_body) ≡ (codes tx, (1, small_body))
read_preimage-preimage_example = read_preimage-preimage tx small_body salt_hex

-- The fields of an object, each with a text.
abbrev pub fields_of : List String → Stream → Stream
fields_of [] rest = tok close_object rest
fields_of (k ∷ ks) rest = tok (text k) (tok (text "x") (fields_of ks rest))

abbrev pub object_of : List String → Stream
object_of ks = tok open_object (fields_of ks eof)

abbrev source_tags : List String
source_tags =
    "schemaVersion" ∷ "issuerId" ∷ "sourceSystem" ∷ "documentTypes" ∷ "keyId"
    ∷ "publicKeyRawBase64url" ∷ "enabled" ∷ []

abbrev configuration_tokens : Stream
configuration_tokens = tok open_object (
    tok (text "sources") (
      tok open_array (
        tok open_object (
          fields_of source_tags (
            tok close_array
              (fields_of ("schemaVersion" ∷ "policyId" ∷ "thresholdBps" ∷ []) eof))))))

abbrev efatura : SourceKey
efatura = record good_key {
  source_system = "EFATURA";
  key_id = "KEY_2";
  document_types = "FREIGHT_INVOICE" ∷ "PURCHASE_INVOICE" ∷ [];
}

abbrev hks : SourceKey
hks = record good_key {
  source_system = "HKS";
  key_id = "KEY_3";
  document_types = "TRADE_NOTIFICATION" ∷ [];
}

abbrev uetds : SourceKey
uetds = record good_key {
  source_system = "UETDS";
  key_id = "KEY_4";
  document_types = "TRANSPORT_MANIFEST" ∷ [];
}

abbrev good_configuration : Configuration
good_configuration = record {
  schema_version = "agrochain.bootstrap.v1";
  policy_id = "CFG-00000001";
  threshold_bps = pos 2000;
  sources = good_key ∷ efatura ∷ hks ∷ uetds ∷ [];
}

abbrev starting : Platform
starting = record trusting {
  tokens = λ raw. elim raw [
    | [] ↦ eof
    | c ∷ cs ↦ if eqb c 1 then configuration_tokens else object_of source_tags
  ];
  configuration = constant good_configuration;
}

abbrev admin : Execution
admin = record { actor = "RegulatorMSP"; role = "admin"; tx_id = tx; time = now }

abbrev plan_of : Result (Configuration × WritePlan) → WritePlan
plan_of (ok z) = z.1
plan_of (err e) = []

started :
    bootstrap_plan starting empty admin (1 ∷ [])
    ≡ ok (good_configuration, plan_of (bootstrap_plan starting empty admin (1 ∷ [])))
unfolding types_of same_texts typed bad_source bad_configuration policy_of answer_config add_source
    add_sources check_sources bootstrap_plan write_bootstrap bootstrap as_array member_of
    decode_bundle bundles_of decode_bundles or_code bad_header preimage signed_message exact
    encoded_exact raw_bytes raw_url commitment verify_bundle expected wrong_actor is_health allowed
    role_check authorize identifier_rest identifier hex_id reference has_prefix valid_id safe_string
    valid_explanation member valid_state unmarshalled load_bytes load absent_bytes absent assign
    planned overlay put_value sort_texts keys op_of stage plan_ops flush ◌>>=◌ fail_if or_fail key
    canonical strict_json as_object missing decode expect_array expect_object key_ok number_ok
    scalar explanation array_loop object_loop token_value document read_document find_field size
started = refl

bootstrap_plan-systems_example :
    map (λ (k : SourceKey). k.source_system) good_configuration.sources
    ≡ "CKS" ∷ "EFATURA" ∷ "HKS" ∷ "UETDS" ∷ []
bootstrap_plan-systems_example =
    bootstrap_plan-systems starting empty admin (1 ∷ []) good_configuration
      (plan_of (bootstrap_plan starting empty admin (1 ∷ []))) started

abbrev header_tags : List String
header_tags =
    "schemaVersion" ∷ "documentId" ∷ "sourceSystem" ∷ "sourceMode" ∷ "issuerId" ∷ "keyId"
    ∷ "sourceDocumentId" ∷ "documentType" ∷ "batchId" ∷ "boundOperationId" ∷ "issuedAt" ∷ "nonce"
    ∷ "commitmentAlgorithm" ∷ "commitment" ∷ "signatureAlgorithm" ∷ []

-- An array of one document.
abbrev evidence_tokens : Stream
evidence_tokens = tok open_array (
    tok open_object (
      tok (text "envelope") (
        tok open_object (
          tok (text "header") (
            tok open_object (
              fields_of header_tags (
                fields_of ("signature" ∷ [])
                  (fields_of ("body" ∷ "saltHex" ∷ []) (tok close_array eof)))))))))

-- JSON values are printed as one byte, by the number of their fields.
abbrev mark_of : Value → ℕ
mark_of v = elim v [ obj fs ↦ size fs | _ ↦ 99 ]

abbrev marked : ℕ → Value
marked n =
    if eqb n 3 then str "3" else if eqb n 2 then str "2" else if eqb n 15 then str "15" else null

abbrev unmarked : Value → Bytes
unmarked v = elim v [
  | str s ↦
      if s == "3"
      then 3 ∷ []
      else if s == "2"
      then 2 ∷ []
      else if s == "15"
      then 15 ∷ []
      else 123 ∷ []
  | _ ↦ 123 ∷ []
]

abbrev eligible : Eligibility
eligible = record {
  producer = "ProducerMSP";
  product = "TOMATO";
  grade = "STANDARD";
  quantity = pos 500000;
  region = "07";
  harvest = "2024-02-29";
  eligible = true;
}

abbrev claimed_bundle : Bundle
claimed_bundle = record good_bundle { body = 8 ∷ [] }

abbrev claiming : Platform
claiming = record trusting {
  tokens = λ raw. elim raw [
    | [] ↦ eof
    | c ∷ cs ↦
        if eqb c 3
        then object_of ("envelope" ∷ "body" ∷ "saltHex" ∷ [])
        else if eqb c 2
        then object_of ("header" ∷ "signature" ∷ [])
        else if eqb c 15
        then object_of header_tags
        else if eqb c 8
        then object_of (
            "producerMsp" ∷ "productCode" ∷ "gradeCode" ∷ "quantityGrams" ∷ "originRegionCode"
            ∷ "harvestDate" ∷ "eligible" ∷ [])
        else evidence_tokens
  ];
  value = record { marshal = λ v. some (mark_of v ∷ []); unmarshal = λ dst raw. (dst, true) };
  decode_any = λ b. elim b [ [] ↦ some null | c ∷ cs ↦ some (marked c) ];
  encode_any = λ v. some (unmarked v);
  bundle = constant claimed_bundle;
  eligibility = constant eligible;
}

-- The configuration and the key are there.
abbrev configured : Ledger
configured = record empty {
  read = λ k.
      if k == escaped_key "configuration" ("v1" ∷ [])
      then some (123 ∷ [])
      else if k == escaped_key "sourceKey" ("ISSUER_1" ∷ "KEY_1" ∷ [])
      then some (123 ∷ [])
      else some [];
}

abbrev attached : Transient
attached = ("evidence", 9 ∷ []) ∷ []

abbrev pub or_else {ℓ} : {A : Type ℓ} → A → Result A → A
or_else a (ok b) = b
or_else a (err e) = a

abbrev provided : Verified
provided =
    or_else no_evidence
      (document_evidence claiming configured attached producer create_command carried carried_refs)

provided_ok :
    document_evidence claiming configured attached producer create_command carried carried_refs
    ≡ ok provided
unfolding entry_of required_of extra_of any_required expected_entries unknown_entry check_transient
    system_for without unused_in salt_of media private_bytes private_load add_private read_salt
    use_record use_once record_uses documents_for bad_prices take_document take_documents retail_of
    retail_evidence report_evidence document_evidence prepare_for prepare eligibility_claim
    purchase_claim notification_claim manifest_claim cost_of freight_claim claim health_of
    check_filter kind_of whole get_config history_record index_record page_record page_records
    page_query find_batch query_one query as_array member_of decode_bundle bundles_of decode_bundles
    or_code bad_header preimage signed_message exact encoded_exact raw_bytes raw_url commitment
    verify_bundle identifier_rest identifier hex_id reference has_prefix valid_id safe_string
    valid_explanation member valid_state integer digits_value parse_int format_int format_010
    valid_date valid_date_time hex_value hex_bytes hex_text big_endian unmarshalled load_bytes load
    absent_bytes absent assign planned overlay put_value sort_texts keys op_of stage plan_ops flush
    ◌>>=◌ fail_if or_fail key canonical strict_json as_object missing decode expect_array
    expect_object key_ok number_ok scalar explanation array_loop object_loop token_value document
    read_document find_field size
provided_ok = refl

document_evidence-IsTaken_example :
    (ds : List Bundle) × (documents_for claiming create_command.command attached ≡ ok ds)
    × (length ds ≡ length (required_of create_command.command))
    × All (IsTaken claiming configured create_command (required_of create_command.command)) ds
    × DistinctTypes ds
document_evidence-IsTaken_example =
    document_evidence-IsTaken claiming configured attached producer create_command carried
      carried_refs provided provided_ok
