-- ===== src/Examples/Calls.antt =====
-- Proposals of contract.go, run on a ledger that is configured and holds a batch in transport.
use agro_chain.Contract.Callers.{Caller, invoke-Caller}
use agro_chain.Contract.{execution_from_stub, is_mutation}
use agro_chain.Provider.{
  add_private, any_required, check_transient, closed_evidence, documents_for, entry_of,
  expected_entries, extra_of, media, private_bytes, private_load, read_salt, record_uses,
  required_of, salt_of, system_for, unknown_entry, unused_in, use_once, use_record, without,
}
use agro_chain.Query.{
  check_filter, find_batch, get_config, health_of, history_record, index_record, kind_of,
  page_query, page_record, page_records, query, query_one, whole,
}
use agro_chain.Step.Handoff.{
  accept, accept_leg, accepted, check_accept, check_transfer, delivery_papers, handoff, moved,
  offer, offer_leg, offered, papers, pickup_papers,
}
use agro_chain.Step.Documents.{consume_document, consume_documents, not_planned}
use agro_chain.Step.Create.{analyse, create, new_batch}
use agro_chain.Engine.{
  Draft, admit, answer, apply, bad_seconds, bad_time, conclude, decide, drop_key, existence, finish,
  fresh_refs, has_any, is_create, load_refs, new_event, new_receipt, private_op, record_all,
  reindex, run, sorted_unique, updated, write_all,
}
use agro_chain.Base.Int.{add64, mul64, quot64, rem64, sub64, wrap64, ◌*ℤ◌, ◌+ℤ◌, ◌-ℤ◌}
use agro_chain.Payload.{
  bad_quantity, check_analysis, check_command, check_create, check_freight, check_handoff,
  check_report, fn_name, parse_command, valid_region, validate, validate_payload,
}
use agro_chain.Text.Decimal.{
  digits_value, format_010, format_int, integer, parse_int, valid_date, valid_date_time,
}
use agro_chain.Text.{
  has_prefix, hex_id, identifier, identifier_rest, member, reference, safe_string,
  valid_explanation, valid_id, valid_state,
}
use agro_chain.Json.{
  array_loop, document, expect_array, expect_object, explanation, find_field, key_ok, number_ok,
  object_loop, read_document, scalar, size, token_value,
}
use agro_chain.Auth.{allowed, authorize, expected, is_health, role_check, wrong_actor}
use agro_chain.Base.{inl, ◌++◌, map, true, false, [], ◌∷◌, some, ◌≡◌, refl, ◌==◌, if◌then◌else◌}
use agro_chain.Codes.{ok, err, evidence_verification_unavailable, fail_if, ◌>>=◌}
use agro_chain.Model.{offer_delivery, query_batches_by_state}
use agro_chain.Platform.{Codec, as_object, canonical, decode, key, missing, or_fail, strict_json}
use agro_chain.Ledger.{
  emit, Ledger, absent, absent_bytes, assign, flush, keys, load, load_bytes, op_of, overlay,
  plan_ops, planned, put_value, sort_texts, stage, unmarshalled,
}
use agro_chain.Ledger.Plan.{committed}
use agro_chain.Contract.Dispatch.{
  Call, Reply, command_of, dispatch, dispatch_bootstrap, dispatch_private, find_document, invoke,
  invoke_as, is_bootstrap, one_request, proposal_of, reading, replied, required, respond, route,
  run_command, success,
}
use agro_chain.Contract.Reads.{invoke-reads}
use agro_chain.Engine.Written.{Respects}
use agro_chain.Engine.Staged.{apply_completes}
use agro_chain.Examples.Provided.{or_else}
use agro_chain.Provider.Prepare.{
  bad_prices, document_evidence, prepare, prepare_for, report_evidence, retail_evidence, retail_of,
  take_document, take_documents,
}
use agro_chain.Provider.Keys.{prepare-Respects}
use agro_chain.History.{World, Step}
use agro_chain.History.Invoked.{invoke-Step}
use agro_chain.Examples.World.{
  provider, small_event, world, empty, producer, world-KeyLaw, one_page, clock, plain,
}
use agro_chain.Examples.Keys.{escaped_key}
use agro_chain.Examples.Data.{created_receipt, create_command, tx}

-- The world state of the examples, and a ledger that reads it.
abbrev road : World
road k =
    if k == escaped_key "batch" ("BAT-00000001" ∷ [])
    then 123 ∷ []
    else if k == escaped_key "batchEvidence" ("BAT-00000001" ∷ [])
    then 123 ∷ []
    else if k == escaped_key "configuration" ("v1" ∷ [])
    then 123 ∷ []
    else []

abbrev configured_road : Ledger
configured_road = record {
  read = λ k. some (road k);
  refuses = λ o. false;
  has_private = true;
  read_private = λ c k. some [];
  page = one_page;
}

abbrev delivery_call : Call
delivery_call = record {
  msp = some "LogisticsMSP";
  role = some "carrier";
  function = offer_delivery;
  args = "c" ∷ [];
  timestamp = some clock;
  tx_id = tx;
  transient = some [];
}

abbrev replies : Codec Reply
replies = plain

delivered : (invoke world configured_road replies "0.3.0" delivery_call).0 ≡ success (123 ∷ [])
unfolding expected wrong_actor is_health allowed role_check authorize expect_array expect_object
    key_ok number_ok scalar explanation array_loop object_loop token_value document read_document
    find_field size identifier_rest identifier hex_id reference has_prefix valid_id safe_string
    valid_explanation member valid_state integer digits_value parse_int format_int format_010
    valid_date valid_date_time bad_quantity valid_region check_create check_handoff check_freight
    check_report check_analysis validate validate_payload fn_name check_command parse_command
    or_fail key canonical strict_json as_object missing decode unmarshalled load_bytes load
    absent_bytes absent assign planned overlay put_value sort_texts keys op_of stage plan_ops flush
    ◌>>=◌ fail_if ◌+ℤ◌ ◌-ℤ◌ ◌*ℤ◌ wrap64 add64 sub64 mul64 quot64 rem64 bad_seconds bad_time
    is_create existence sorted_unique fresh_refs updated new_receipt new_event drop_key private_op
    has_any answer admit load_refs run record_all reindex conclude decide finish write_all apply
    new_batch create analyse not_planned consume_document consume_documents offer_leg accept_leg
    handoff pickup_papers delivery_papers papers offered offer check_transfer check_accept accepted
    moved accept health_of check_filter kind_of whole get_config history_record index_record
    page_record page_records page_query find_batch query_one query entry_of required_of extra_of
    any_required expected_entries unknown_entry check_transient system_for without unused_in salt_of
    media private_bytes private_load add_private read_salt use_record use_once record_uses
    documents_for bad_prices take_document take_documents retail_of retail_evidence report_evidence
    document_evidence prepare_for prepare is_mutation execution_from_stub replied reading
    dispatch_bootstrap find_document dispatch_private one_request command_of run_command route
    dispatch required is_bootstrap proposal_of respond invoke_as invoke
delivered = refl

invoke-Step_example :
    Step world road (committed (invoke world configured_road replies "0.3.0" delivery_call).1 road)
invoke-Step_example =
    invoke-Step world world-KeyLaw configured_road road
      (committed (invoke world configured_road replies "0.3.0" delivery_call).1 road)
      (record { reads = λ k. refl }) replies "0.3.0" delivery_call (123 ∷ []) delivered (λ k. refl)

invoke-Caller_example : Caller delivery_call
invoke-Caller_example =
    invoke-Caller world configured_road replies "0.3.0" delivery_call (123 ∷ []) (inl delivered)

abbrev page_call : Call
page_call = record delivery_call { function = query_batches_by_state; args = "p" ∷ [] }

invoke-reads_example : (invoke world configured_road replies "0.3.0" page_call).1 ≡ []
unfolding is_mutation is_bootstrap
invoke-reads_example = invoke-reads world configured_road "0.3.0" replies page_call refl

prepare-Respects_example : Respects world (prepare world empty [] producer)
prepare-Respects_example = prepare-Respects world world-KeyLaw empty [] producer

-- The provider that accepts nothing.
closed_refused :
    apply world empty closed_evidence create_command producer
    ≡ (err evidence_verification_unavailable, [])
unfolding expected wrong_actor is_health allowed role_check authorize expect_array expect_object
    key_ok number_ok scalar explanation array_loop object_loop token_value document read_document
    find_field size identifier_rest identifier hex_id reference has_prefix valid_id safe_string
    valid_explanation member valid_state integer digits_value parse_int format_int format_010
    valid_date valid_date_time bad_quantity valid_region check_create check_handoff check_freight
    check_report check_analysis validate validate_payload fn_name check_command parse_command
    or_fail key canonical strict_json as_object missing decode unmarshalled load_bytes load
    absent_bytes absent assign planned overlay put_value sort_texts keys op_of stage plan_ops flush
    ◌>>=◌ fail_if ◌+ℤ◌ ◌-ℤ◌ ◌*ℤ◌ wrap64 add64 sub64 mul64 quot64 rem64 bad_seconds bad_time
    is_create existence sorted_unique fresh_refs updated new_receipt new_event drop_key private_op
    has_any answer admit load_refs run record_all reindex conclude decide finish write_all apply
    closed_evidence
closed_refused = refl

-- What the engine decides for the CreateBatch of the examples.
abbrev draft : Draft
draft =
    or_else (record { plan = []; private = []; receipt = created_receipt; event = small_event })
      (decide world empty provider create_command producer)

draft_decided : decide world empty provider create_command producer ≡ ok draft
unfolding expected wrong_actor is_health allowed role_check authorize expect_array expect_object
    key_ok number_ok scalar explanation array_loop object_loop token_value document read_document
    find_field size identifier_rest identifier hex_id reference has_prefix valid_id safe_string
    valid_explanation member valid_state integer digits_value parse_int format_int format_010
    valid_date valid_date_time bad_quantity valid_region check_create check_handoff check_freight
    check_report check_analysis validate validate_payload fn_name check_command parse_command
    or_fail key canonical strict_json as_object missing decode unmarshalled load_bytes load
    absent_bytes absent assign planned overlay put_value sort_texts keys op_of stage plan_ops flush
    ◌>>=◌ fail_if ◌+ℤ◌ ◌-ℤ◌ ◌*ℤ◌ wrap64 add64 sub64 mul64 quot64 rem64 bad_seconds bad_time
    is_create existence sorted_unique fresh_refs updated new_receipt new_event drop_key private_op
    has_any answer admit load_refs run record_all reindex conclude decide finish write_all apply
    new_batch create analyse not_planned consume_document consume_documents
draft_decided = refl

draft_printed : canonical world world.event draft.event ≡ ok (123 ∷ [])
unfolding canonical or_fail ◌>>=◌
draft_printed = refl

apply_completes_example : apply world empty provider create_command producer ≡ (
  ok draft.receipt,
  map private_op draft.private
      ++ (plan_ops draft.plan ++ emit draft.event.event_type (123 ∷ []) ∷ []),
)
apply_completes_example =
    apply_completes world empty provider create_command producer draft (123 ∷ [])
      (record { takes = λ o. refl; private = refl }) draft_decided draft_printed
