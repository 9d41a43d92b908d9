-- ===== src/Examples/Evaluated.antt =====
-- An evaluation of a price and a review that are accepted.
use agro_chain.Score.Exact.{IsFloor}
use agro_chain.Score.{classify, increase_of, price_score}
use agro_chain.Text.Decimal.{
  digits_value, format_010, format_int, integer, parse_int, valid_date, valid_date_time,
}
use agro_chain.Query.{
  check_filter, find_batch, get_config, health_of, history_record, index_record, kind_of,
  page_query, page_record, page_records, query, query_one, whole,
}
use agro_chain.Text.{
  has_prefix, hex_id, identifier, identifier_rest, member, reference, safe_string,
  valid_explanation, valid_id, valid_state,
}
use agro_chain.Base.{
  ◌<◌, ◌+◌, ◌↔◌, ◌*◌, ℕ, String, false, [], ◌∷◌, some, ◌≡◌, refl, eqb, if◌then◌else◌,
}
use agro_chain.Base.Int.{add64, mul64, pos, quot64, rem64, sub64, wrap64, ◌*ℤ◌, ◌+ℤ◌, ◌-ℤ◌}
use agro_chain.Codes.{fail_if, ok, ◌>>=◌}
use agro_chain.Json.{
  array_loop, document, eof, expect_array, expect_object, explanation, find_field, key_ok,
  number_ok, object_loop, read_document, scalar, size, text, tok, token_value,
}
use agro_chain.Model.{Batch, retail_reported}
use agro_chain.Model.Evidence.{AnomalyRecord, PurchaseBody, RetailRecord, CostRecord}
use agro_chain.Model.Evidence.Zero.{
  zero_anomaly_record, zero_retail_record, zero_cost_record, zero_purchase_body, zero_retail_input,
  zero_score,
}
use agro_chain.Platform.{Platform, as_object, canonical, decode, key, missing, or_fail, strict_json}
use agro_chain.Ledger.{
  Ledger, absent, absent_bytes, assign, flush, keys, load, load_bytes, op_of, overlay, plan_ops,
  planned, put_value, sort_texts, stage, unmarshalled,
}
use agro_chain.Step.{Verified}
use agro_chain.Evidence.{
  bad_header, commitment, encoded_exact, exact, or_code, preimage, raw_bytes, raw_url,
  signed_message, verify_bundle,
}
use agro_chain.Provider.{
  Transient, add_private, any_required, check_transient, documents_for, entry_of, expected_entries,
  extra_of, media, no_evidence, private_bytes, private_load, read_salt, record_uses, required_of,
  salt_of, system_for, unknown_entry, unused_in, use_once, use_record, without,
}
use agro_chain.Provider.Review.{
  action_of, analysed, anomaly_of, bad_binding, bad_outcome, bad_terms, evaluate,
  evaluate_price_evidence, evaluation, first_review_state, next_review, review_action_name,
  review_evidence, review_tags, same_score,
}
use agro_chain.Provider.Analysis.{Derived, evaluate-Derived}
use agro_chain.Provider.Reviews.{Reviewed, review_evidence-Reviewed}
use agro_chain.Provider.Exact.{evaluate_exact}
use agro_chain.Examples.Data.{tx, carried, carried_refs, delivery_command}
use agro_chain.Examples.Signed.{full}
use agro_chain.Examples.World.{world, constant, producer}
use agro_chain.Examples.Provided.{object_of, or_else}

-- The private records of a batch whose price is evaluated.
abbrev bought : PurchaseBody
bought = record zero_purchase_body {
  quantity = pos 500000;
  price = pos 2000;
  currency = "TRY";
  tax = "EXCLUDING_TAX";
}

abbrev sold : RetailRecord
sold = record zero_retail_record {
  batch_id = "BAT-00000001";
  quantity = pos 500000;
  input = record zero_retail_input { price = pos 3000; currency = "TRY"; tax = "EXCLUDING_TAX" };
  purchase_id = "DOC-00000002";
}

abbrev shipped : CostRecord
shipped = record zero_cost_record {
  batch_id = "BAT-00000001";
  quantity = pos 500000;
  currency = "TRY";
  tax = "EXCLUDING_TAX";
}

abbrev salt_other : String
salt_other = "1111111111111111111111111111111111111111111111111111111111111111"

abbrev raised : AnomalyRecord
raised = record zero_anomaly_record {
  score = record zero_score { classification = "REVIEW_REQUIRED" };
  review_state = "OPEN";
  salt = "old";
}

abbrev analysing : Platform
analysing = record world {
  tokens = λ raw. elim raw [
    | [] ↦ eof
    | c ∷ cs ↦
        if eqb c 1
        then object_of ("increaseBps" ∷ "classification" ∷ "reasonCode" ∷ [])
        else if eqb c 2
        then tok (text tx) eof
        else if eqb c 3
        then object_of ("reviewerRef" ∷ "recordSaltHex" ∷ [])
        else object_of (
            "sellerMsp" ∷ "buyerMsp" ∷ "quantityGrams" ∷ "priceKurusPerKg" ∷ "totalKurus"
            ∷ "currency" ∷ "taxBasis" ∷ "attachmentDigest" ∷ "attachmentMediaType" ∷ [])
  ];
  opening = constant (record { body = 4 ∷ []; salt = tx });
  purchase_body = constant bought;
  retail_record = constant sold;
  cost_record = constant shipped;
  score = constant (record {
    increase = pos 5000;
    classification = "REVIEW_REQUIRED";
    reason = "ABOVE_PILOT_THRESHOLD";
  });
  anomaly_record = constant raised;
  review_input =
      constant
        (record { reviewer = "REV-00000001"; outcome = ""; explanation = ""; salt = salt_other });
}

-- Every record is there, public and private.
abbrev recorded : Ledger
recorded = record full { read_private = λ c k. some (123 ∷ []) }

abbrev proposed : Transient
proposed = ("proposedResult", 1 ∷ []) ∷ ("recordSaltHex", 2 ∷ []) ∷ []

abbrev evaluated : AnomalyRecord
evaluated =
    or_else zero_anomaly_record
      (evaluate analysing recorded proposed delivery_command producer carried carried_refs)

evaluated_ok :
    evaluate analysing recorded proposed delivery_command producer carried carried_refs
    ≡ ok evaluated
unfolding entry_of required_of extra_of any_required expected_entries unknown_entry check_transient
    system_for without unused_in salt_of media private_bytes private_load add_private read_salt
    use_record use_once record_uses documents_for same_score bad_binding bad_terms
    first_review_state review_tags review_action_name bad_outcome next_review analysed evaluation
    anomaly_of evaluate evaluate_price_evidence action_of review_evidence increase_of classify
    price_score health_of check_filter kind_of whole get_config history_record index_record
    page_record page_records page_query find_batch query_one query or_code bad_header preimage
    signed_message exact encoded_exact raw_bytes raw_url commitment verify_bundle identifier_rest
    identifier hex_id reference has_prefix valid_id safe_string valid_explanation member valid_state
    integer digits_value parse_int format_int format_010 valid_date valid_date_time ◌+ℤ◌ ◌-ℤ◌ ◌*ℤ◌
    wrap64 add64 sub64 mul64 quot64 rem64 unmarshalled load_bytes load absent_bytes absent assign
    planned overlay put_value sort_texts keys op_of stage plan_ops flush ◌>>=◌ fail_if or_fail key
    canonical strict_json as_object missing decode expect_array expect_object key_ok number_ok
    scalar explanation array_loop object_loop token_value document read_document find_field size
evaluated_ok = refl

evaluate-Derived_example :
    Derived analysing recorded proposed delivery_command producer carried carried_refs evaluated
evaluate-Derived_example =
    evaluate-Derived analysing recorded proposed delivery_command producer carried carried_refs
      evaluated evaluated_ok

evaluate_exact_example :
    (p r t : ℕ) × (evaluated.purchase ≡ pos p)
    × (evaluated.retail ≡ pos r)
    × (evaluated.threshold ≡ pos t)
    × IsFloor evaluated.score.increase (r * 10000) (p * 10000) p
    × ((evaluated.review_state ≡ "OPEN") ↔ (p * (10000 + t) < r * 10000))
evaluate_exact_example =
    evaluate_exact analysing recorded proposed delivery_command producer carried carried_refs
      evaluated evaluated_ok

abbrev reported : Batch
reported = record carried { state = retail_reported }

abbrev reviewing : Transient
reviewing = ("reviewActionInput", 3 ∷ []) ∷ ("reviewStateSaltHex", 2 ∷ []) ∷ []

abbrev reviewed : Verified
reviewed =
    or_else no_evidence
      (review_evidence analysing recorded reviewing delivery_command producer reported false)

reviewed_ok :
    review_evidence analysing recorded reviewing delivery_command producer reported false
    ≡ ok reviewed
unfolding entry_of required_of extra_of any_required expected_entries unknown_entry check_transient
    system_for without unused_in salt_of media private_bytes private_load add_private read_salt
    use_record use_once record_uses documents_for same_score bad_binding bad_terms
    first_review_state review_tags review_action_name bad_outcome next_review analysed evaluation
    anomaly_of evaluate evaluate_price_evidence action_of review_evidence health_of check_filter
    kind_of whole get_config history_record index_record page_record page_records page_query
    find_batch query_one query or_code bad_header preimage signed_message exact encoded_exact
    raw_bytes raw_url commitment verify_bundle identifier_rest identifier hex_id reference
    has_prefix valid_id safe_string valid_explanation member valid_state integer digits_value
    parse_int format_int format_010 valid_date valid_date_time ◌+ℤ◌ ◌-ℤ◌ ◌*ℤ◌ wrap64 add64 sub64
    mul64 quot64 rem64 unmarshalled load_bytes load absent_bytes absent assign planned overlay
    put_value sort_texts keys op_of stage plan_ops flush ◌>>=◌ fail_if or_fail key canonical
    strict_json as_object missing decode expect_array expect_object key_ok number_ok scalar
    explanation array_loop object_loop token_value document read_document find_field size
reviewed_ok = refl

review_evidence-Reviewed_example :
    Reviewed analysing recorded reviewing delivery_command producer reported false reviewed
review_evidence-Reviewed_example =
    review_evidence-Reviewed analysing recorded reviewing delivery_command producer reported false
      reviewed reviewed_ok
