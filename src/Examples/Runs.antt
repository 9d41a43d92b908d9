-- ===== src/Examples/Runs.antt =====
-- What the examples run to.
use agro_chain.Query.{
  health_of, check_filter, kind_of, whole, get_config, history_record, index_record, page_record,
  page_records, page_query, find_batch, query_one, query,
}
use agro_chain.Auth.{expected, is_health, allowed, role_check, authorize}
use agro_chain.Codes.{◌>>=◌, fail_if, ok, err, unauthorized_organization}
use agro_chain.Text.{
  member, identifier_rest, identifier, has_prefix, valid_id, safe_string, hex_id, reference,
  valid_explanation, valid_state,
}
use agro_chain.Json.{
  expect_array, expect_object, key_ok, number_ok, scalar, explanation, array_loop, object_loop,
  token_value, document, read_document, find_field, size,
}
use agro_chain.Payload.{
  bad_quantity, valid_region, check_create, check_handoff, validate, validate_payload,
  parse_command, check_command, fn_name,
}
use agro_chain.Platform.{strict_json, as_object, missing, decode, or_fail, key, canonical}
use agro_chain.Text.Decimal.{integer, digits_value, parse_int, valid_date, format_int, format_010}
use agro_chain.Base.Int.{◌+ℤ◌, wrap64, add64, ◌-ℤ◌, ◌*ℤ◌, sub64, mul64, quot64, rem64}
use agro_chain.Engine.{
  bad_time, is_create, existence, sorted_unique, fresh_refs, updated, new_receipt, new_event,
  drop_key, private_op, has_any, answer, admit, load_refs, run, record_all, reindex, conclude,
  decide, finish, write_all, apply,
}
use agro_chain.Ledger.{
  unmarshalled, load_bytes, load, absent_bytes, absent, assign, planned, overlay, put_value,
  sort_texts, keys, op_of, stage, plan_ops, flush,
}
use agro_chain.Step.Create.{new_batch, create}
use agro_chain.Step.Documents.{not_planned, consume_document, consume_documents}
use agro_chain.Step.Handoff.{offer_leg, handoff, delivery_papers, papers, offered, offer}
use agro_chain.Step.{valid_purchase}
use agro_chain.Base.{◌≡◌, refl, [], ◌∷◌, true}
use agro_chain.Model.{create_batch, offer_delivery, query_batches_by_state}
use agro_chain.Examples.World.{
  world, empty, on_the_road, provider, producer, carrier, stranger, consumed, small_plan,
  small_event, proof,
}
use agro_chain.Examples.Data.{
  create_command, delivery_command, created_receipt, delivery_receipt, handoff_tokens,
  handoff_document, answered_page,
}

pub create_valid : validate_payload world create_command ≡ ok tt
unfolding ◌>>=◌ fail_if expect_array expect_object key_ok number_ok scalar explanation array_loop
    object_loop token_value document read_document find_field size bad_quantity valid_region
    check_create check_handoff validate validate_payload strict_json as_object missing decode
    identifier_rest identifier has_prefix valid_id safe_string member integer digits_value parse_int
    valid_date
create_valid = refl

pub delivery_valid : validate_payload world delivery_command ≡ ok tt
unfolding ◌>>=◌ fail_if expect_array expect_object key_ok number_ok scalar explanation array_loop
    object_loop token_value document read_document find_field size bad_quantity valid_region
    check_create check_handoff validate validate_payload strict_json as_object missing decode
    identifier_rest identifier has_prefix valid_id safe_string member integer digits_value parse_int
    valid_date
delivery_valid = refl

pub create_authorized : authorize producer.actor producer.role create_batch ≡ ok tt
unfolding expected is_health allowed role_check authorize ◌>>=◌ fail_if member
create_authorized = refl

pub delivery_authorized : authorize carrier.actor carrier.role offer_delivery ≡ ok tt
unfolding expected is_health allowed role_check authorize ◌>>=◌ fail_if member
delivery_authorized = refl

pub create_accepted : (apply world empty provider create_command producer).0 ≡ ok created_receipt
unfolding expected is_health allowed role_check authorize ◌>>=◌ fail_if member expect_array
    expect_object key_ok number_ok scalar explanation array_loop object_loop token_value document
    read_document find_field size bad_quantity valid_region check_create check_handoff validate
    validate_payload strict_json as_object missing decode identifier_rest identifier has_prefix
    valid_id safe_string integer digits_value parse_int valid_date ◌+ℤ◌ wrap64 add64 bad_time
    is_create existence sorted_unique fresh_refs updated new_receipt new_event drop_key private_op
    has_any answer admit load_refs run record_all reindex conclude decide finish write_all apply
    unmarshalled load_bytes load absent_bytes absent assign planned overlay put_value sort_texts
    keys op_of stage plan_ops flush or_fail key canonical new_batch create not_planned
    consume_document offer_leg handoff delivery_papers papers offered offer hex_id format_int
    format_010
create_accepted = refl

pub delivery_accepted :
    (apply world on_the_road provider delivery_command carrier).0 ≡ ok delivery_receipt
unfolding expected is_health allowed role_check authorize ◌>>=◌ fail_if member expect_array
    expect_object key_ok number_ok scalar explanation array_loop object_loop token_value document
    read_document find_field size bad_quantity valid_region check_create check_handoff validate
    validate_payload strict_json as_object missing decode identifier_rest identifier has_prefix
    valid_id safe_string integer digits_value parse_int valid_date ◌+ℤ◌ wrap64 add64 bad_time
    is_create existence sorted_unique fresh_refs updated new_receipt new_event drop_key private_op
    has_any answer admit load_refs run record_all reindex conclude decide finish write_all apply
    unmarshalled load_bytes load absent_bytes absent assign planned overlay put_value sort_texts
    keys op_of stage plan_ops flush or_fail key canonical new_batch create not_planned
    consume_document offer_leg handoff delivery_papers papers offered offer hex_id format_int
    format_010
delivery_accepted = refl

pub stranger_refused :
    (apply world empty provider create_command stranger).0 ≡ err unauthorized_organization
unfolding expected is_health allowed role_check authorize ◌>>=◌ fail_if member bad_time is_create
    existence sorted_unique fresh_refs updated new_receipt new_event drop_key private_op has_any
    answer admit load_refs run record_all reindex conclude decide finish write_all apply
stranger_refused = refl

pub command_parsed : parse_command world offer_delivery (3 ∷ []) ≡ ok delivery_command
unfolding ◌>>=◌ fail_if expect_array expect_object key_ok number_ok scalar explanation array_loop
    object_loop token_value document read_document find_field size bad_quantity valid_region
    check_create check_handoff validate validate_payload strict_json as_object missing decode
    identifier_rest identifier has_prefix valid_id safe_string member integer digits_value parse_int
    valid_date parse_command check_command fn_name
command_parsed = refl

pub documents_consumed :
    consume_documents world empty create_command ("DOC-00000002" ∷ "DOC-00000003" ∷ []) []
    ≡ ok consumed
unfolding ◌>>=◌ fail_if unmarshalled load_bytes load absent_bytes absent assign planned overlay
    put_value sort_texts keys op_of stage plan_ops flush or_fail key canonical strict_json as_object
    missing decode not_planned consume_document consume_documents identifier_rest identifier
    has_prefix valid_id
documents_consumed = refl

pub plan_flushed : (flush world empty small_plan small_event).0 ≡ ok tt
unfolding ◌>>=◌ fail_if unmarshalled load_bytes load absent_bytes absent assign planned overlay
    put_value sort_texts keys op_of stage plan_ops flush or_fail key canonical strict_json as_object
    missing decode
plan_flushed = refl

pub handoff_read : read_document handoff_tokens ≡ ok handoff_document
unfolding expect_array expect_object key_ok number_ok scalar explanation array_loop object_loop
    token_value document read_document find_field size ◌>>=◌ fail_if identifier_rest identifier
    hex_id reference has_prefix valid_id safe_string valid_explanation member valid_state integer
    digits_value parse_int format_int format_010 valid_date
handoff_read = refl

pub page_answered : page_query world on_the_road query_batches_by_state "p" ≡ ok answered_page
unfolding expect_array expect_object key_ok number_ok scalar explanation array_loop object_loop
    token_value document read_document find_field size ◌>>=◌ fail_if unmarshalled load_bytes load
    absent_bytes absent assign planned overlay put_value sort_texts keys op_of stage plan_ops flush
    or_fail key canonical strict_json as_object missing decode health_of check_filter kind_of whole
    get_config history_record index_record page_record page_records page_query find_batch query_one
    query identifier_rest identifier hex_id reference has_prefix valid_id safe_string
    valid_explanation member valid_state integer digits_value parse_int format_int format_010
    valid_date
page_answered = refl

pub purchase_valid : valid_purchase proof ≡ true
unfolding ◌+ℤ◌ ◌-ℤ◌ ◌*ℤ◌ wrap64 add64 sub64 mul64 quot64 rem64 valid_purchase
purchase_valid = refl
