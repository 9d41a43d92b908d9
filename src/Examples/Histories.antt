-- ===== src/Examples/Histories.antt =====
-- Histories that begin with the CreateBatch of the examples, on a platform that reads back the one batch
-- that it prints.
use agro_chain.Step.Documents.{consume_document, consume_documents, not_planned}
use agro_chain.Step.Create.{analyse, create, new_batch}
use agro_chain.Payload.{
  bad_quantity, check_analysis, check_command, check_create, check_freight, check_handoff,
  check_report, fn_name, parse_command, valid_region, validate, validate_payload,
}
use agro_chain.Text.Decimal.{
  digits_value, format_010, format_int, integer, parse_int, valid_date, valid_date_time,
}
use agro_chain.Text.{
  has_prefix, hex_id, identifier, identifier_rest, member, reference, safe_string,
  valid_explanation, valid_id, valid_state,
}
use agro_chain.Json.{
  array_loop, document, expect_array, expect_object, explanation, find_field, key_ok, number_ok,
  object_loop, read_document, scalar, size, token_value,
}
use agro_chain.Auth.{allowed, authorize, expected, is_health, role_check, wrong_actor}
use agro_chain.Base.{
  Bool, true, false, ◌&&◌, [], ◌∷◌, Option, none, some, ◌≡◌, refl, sym, subst, ap, and-eq-true,
  ◌==◌, eq_iff,
}
use agro_chain.Base.Int.{
  add64, eqz, eqz→eq, mul64, pos, quot64, rem64, sub64, wrap64, ◌*ℤ◌, ◌+ℤ◌, ◌-ℤ◌,
}
use agro_chain.Codes.{ok-injective, duplicate_transaction, err, err-ne-ok, fail_if, ok, ◌>>=◌}
use agro_chain.Model.{Bytes, Batch, producer_msp, logistics_msp, retailer_msp, created}
use agro_chain.Model.Zero.{zero_batch}
use agro_chain.Platform.{Platform, as_object, canonical, decode, key, missing, or_fail, strict_json}
use agro_chain.Ledger.{
  absent, absent_bytes, assign, flush, keys, load, load_bytes, op_of, overlay, plan_ops, planned,
  put_value, sort_texts, stage, unmarshalled,
}
use agro_chain.Ledger.Plan.{committed}
use agro_chain.Engine.{
  admit, answer, apply, bad_seconds, bad_time, conclude, decide, drop_key, existence, finish,
  fresh_refs, has_any, is_create, load_refs, new_event, new_receipt, private_op, record_all,
  reindex, run, sorted_unique, updated, write_all,
}
use agro_chain.Engine.Custody.{WellFormed}
use agro_chain.Engine.Written.{KeyLaw, Respects}
use agro_chain.Step.{Verified}
use agro_chain.History.{World, Reaches, start, after, accepted, unchanged}
use agro_chain.History.Receipts.{operation_once}
use agro_chain.History.Batches.{reached-Progress, reached-WellFormed}
use agro_chain.History.Held.{BatchLaw, Stored, Progress}
use agro_chain.Examples.Data.{tx, now, create_command, created_receipt}
use agro_chain.Examples.Keys.{escaped_key-injective}
use agro_chain.Examples.Runs.{create_accepted}
use agro_chain.Examples.World.{
  world, empty, provider, producer, world-KeyLaw, world-ReceiptLaw, proof, provider-Respects,
}
use agro_chain.Examples.Witnesses.{behind, again_command, again-Presentable}

abbrev created_batch : Batch
created_batch = record {
  schema_version = "agrochain.batch.v1";
  batch_id = "BAT-00000001";
  product_code = "TOMATO";
  grade_code = "STANDARD";
  quantity_grams = pos 500000;
  origin_region_code = "07";
  harvest_date = "2024-02-29";
  producer_msp = producer_msp;
  logistics_msp = logistics_msp;
  intended_retailer_msp = retailer_msp;
  owner_msp = producer_msp;
  custodian_msp = producer_msp;
  state = created;
  version = pos 1;
  retail_lot_id = "";
  created_tx_id = tx;
  updated_tx_id = tx;
  tx_time = now;
}

abbrev is_created : Batch → Bool
is_created b =
    b.schema_version == "agrochain.batch.v1"
    && (b.batch_id == "BAT-00000001"
        && (b.product_code == "TOMATO"
            && (b.grade_code == "STANDARD"
                && (eqz b.quantity_grams (pos 500000)
                    && (b.origin_region_code == "07"
                        && (b.harvest_date == "2024-02-29"
                            && (b.producer_msp == producer_msp
                                && (b.logistics_msp == logistics_msp
                                    && (b.intended_retailer_msp == retailer_msp
                                        && (b.owner_msp == producer_msp
                                            && (b.custodian_msp == producer_msp
                                                && (b.state == created
                                                    && (eqz b.version (pos 1)
                                                        && (b.retail_lot_id == ""
                                                            && (b.created_tx_id == tx
                                                            && (b.updated_tx_id == tx
                                                            && (b.tx_time.seconds == "1700000000"
                                                            && (eqz b.tx_time.nanos
                                                            (pos 0)))))))))))))))))))

-- The test is only passed by that batch.
is_created-eq : (b : Batch) → is_created b ≡ true → b ≡ created_batch
is_created-eq b h₀ =
    let (e0, h1) = and-eq-true _ _ h₀ in
    let (e1, h2) = and-eq-true _ _ h1 in
    let (e2, h3) = and-eq-true _ _ h2 in
    let (e3, h4) = and-eq-true _ _ h3 in
    let (e4, h5) = and-eq-true _ _ h4 in
    let (e5, h6) = and-eq-true _ _ h5 in
    let (e6, h7) = and-eq-true _ _ h6 in
    let (e7, h8) = and-eq-true _ _ h7 in
    let (e8, h9) = and-eq-true _ _ h8 in
    let (e9, h10) = and-eq-true _ _ h9 in
    let (e10, h11) = and-eq-true _ _ h10 in
    let (e11, h12) = and-eq-true _ _ h11 in
    let (e12, h13) = and-eq-true _ _ h12 in
    let (e13, h14) = and-eq-true _ _ h13 in
    let (e14, h15) = and-eq-true _ _ h14 in
    let (e15, h16) = and-eq-true _ _ h15 in
    let (e16, h17) = and-eq-true _ _ h16 in
    let (e17, h18) = and-eq-true _ _ h17 in
    let q0 : b.schema_version ≡ "agrochain.batch.v1" = (eq_iff _ _).0 e0 in
    let q1 : b.batch_id ≡ "BAT-00000001" = (eq_iff _ _).0 e1 in
    let q2 : b.product_code ≡ "TOMATO" = (eq_iff _ _).0 e2 in
    let q3 : b.grade_code ≡ "STANDARD" = (eq_iff _ _).0 e3 in
    let q4 : b.quantity_grams ≡ pos 500000 = eqz→eq _ _ e4 in
    let q5 : b.origin_region_code ≡ "07" = (eq_iff _ _).0 e5 in
    let q6 : b.harvest_date ≡ "2024-02-29" = (eq_iff _ _).0 e6 in
    let q7 : b.producer_msp ≡ producer_msp = (eq_iff _ _).0 e7 in
    let q8 : b.logistics_msp ≡ logistics_msp = (eq_iff _ _).0 e8 in
    let q9 : b.intended_retailer_msp ≡ retailer_msp = (eq_iff _ _).0 e9 in
    let q10 : b.owner_msp ≡ producer_msp = (eq_iff _ _).0 e10 in
    let q11 : b.custodian_msp ≡ producer_msp = (eq_iff _ _).0 e11 in
    let q12 : b.state ≡ created = (eq_iff _ _).0 e12 in
    let q13 : b.version ≡ pos 1 = eqz→eq _ _ e13 in
    let q14 : b.retail_lot_id ≡ "" = (eq_iff _ _).0 e14 in
    let q15 : b.created_tx_id ≡ tx = (eq_iff _ _).0 e15 in
    let q16 : b.updated_tx_id ≡ tx = (eq_iff _ _).0 e16 in
    let q17 : b.tx_time.seconds ≡ now.seconds = (eq_iff _ _).0 e17 in
    let q18 : b.tx_time.nanos ≡ now.nanos = eqz→eq _ _ h18 in
    λ i. record {
      schema_version = q0 i;
      batch_id = q1 i;
      product_code = q2 i;
      grade_code = q3 i;
      quantity_grams = q4 i;
      origin_region_code = q5 i;
      harvest_date = q6 i;
      producer_msp = q7 i;
      logistics_msp = q8 i;
      intended_retailer_msp = q9 i;
      owner_msp = q10 i;
      custodian_msp = q11 i;
      state = q12 i;
      version = q13 i;
      retail_lot_id = q14 i;
      created_tx_id = q15 i;
      updated_tx_id = q16 i;
      tx_time = record { seconds = q17 i; nanos = q18 i };
    }

abbrev printed_if : Bool → Option Bytes
printed_if true = some (123 ∷ [])
printed_if false = none

abbrev exacting : Platform
exacting = record world {
  batch = record {
    marshal = λ b. printed_if (is_created b);
    unmarshal = λ dst raw. (created_batch, true);
  };
}

exacting-KeyLaw : KeyLaw exacting
exacting-KeyLaw = record { injective = escaped_key-injective }

restored :
    (b : Batch) (bytes : Bytes) (t : Bool)
    → is_created b ≡ t
    → canonical exacting exacting.batch b ≡ ok bytes
    → load_bytes exacting.batch (some bytes) zero_batch ≡ ok (true, b)
unfolding canonical or_fail ◌>>=◌ load_bytes unmarshalled
restored b bytes true e h =
    let one : 123 ∷ [] ≡ bytes = ok-injective (rw e at h) in
    subst (λ z. load_bytes exacting.batch (some z) zero_batch ≡ ok (true, b)) one
      (ap (λ z. ok (true, z)) (sym (is_created-eq b e)))
restored b bytes false e h = absurd (err-ne-ok (rw e at h))

exacting-BatchLaw : BatchLaw exacting
exacting-BatchLaw = record { restores = λ b bytes h. restored b bytes (is_created b) refl h }

exacting-Respects : Respects exacting provider
unfolding planned
exacting-Respects = record {
  avoids = λ c b refs v kind attrs given named.
      let same : proof ≡ v = ok-injective given in
      subst (λ (z : Verified). planned (key exacting kind attrs) z.public ≡ none) same refl;
}

created_exactly : (apply exacting empty provider create_command producer).0 ≡ ok created_receipt
unfolding expected wrong_actor is_health allowed role_check authorize expect_array expect_object
    key_ok number_ok scalar explanation array_loop object_loop token_value document read_document
    find_field size identifier_rest identifier hex_id reference has_prefix valid_id safe_string
    valid_explanation member valid_state integer digits_value parse_int format_int format_010
    valid_date valid_date_time bad_quantity valid_region check_create check_handoff check_freight
    check_report check_analysis validate validate_payload fn_name check_command parse_command
    or_fail key canonical strict_json as_object missing decode unmarshalled load_bytes load
    absent_bytes absent assign planned overlay put_value sort_texts keys op_of stage plan_ops flush
    ◌>>=◌ fail_if ◌+ℤ◌ ◌-ℤ◌ ◌*ℤ◌ wrap64 add64 sub64 mul64 quot64 rem64 bad_seconds bad_time
    is_create existence sorted_unique fresh_refs updated new_receipt new_event drop_key private_op
    has_any answer admit load_refs run record_all reindex conclude decide finish write_all apply
    new_batch create analyse not_planned consume_document consume_documents
created_exactly = refl

-- The world state behind the creation.
abbrev with_batch : World
with_batch = committed (apply exacting empty provider create_command producer).1 (λ k. [])

created_history : Reaches exacting (λ k. []) with_batch
created_history = after start (
    accepted empty provider create_command producer created_receipt (λ k. []) with_batch
      (record { reads = λ k. refl }) exacting-Respects created_exactly (λ k. refl))

batch_there : Stored exacting with_batch "BAT-00000001" created_batch
unfolding expected wrong_actor is_health allowed role_check authorize expect_array expect_object
    key_ok number_ok scalar explanation array_loop object_loop token_value document read_document
    find_field size identifier_rest identifier hex_id reference has_prefix valid_id safe_string
    valid_explanation member valid_state integer digits_value parse_int format_int format_010
    valid_date valid_date_time bad_quantity valid_region check_create check_handoff check_freight
    check_report check_analysis validate validate_payload fn_name check_command parse_command
    or_fail key canonical strict_json as_object missing decode unmarshalled load_bytes load
    absent_bytes absent assign planned overlay put_value sort_texts keys op_of stage plan_ops flush
    ◌>>=◌ fail_if ◌+ℤ◌ ◌-ℤ◌ ◌*ℤ◌ wrap64 add64 sub64 mul64 quot64 rem64 bad_seconds bad_time
    is_create existence sorted_unique fresh_refs updated new_receipt new_event drop_key private_op
    has_any answer admit load_refs run record_all reindex conclude decide finish write_all apply
    new_batch create analyse not_planned consume_document consume_documents
batch_there = refl

reached-WellFormed_example : WellFormed created_batch
reached-WellFormed_example =
    reached-WellFormed exacting exacting-KeyLaw exacting-BatchLaw "BAT-00000001" created_batch
      created_history batch_there

reached-Progress_example :
    (b : Batch) × Stored exacting with_batch "BAT-00000001" b × Progress created_batch b
reached-Progress_example =
    reached-Progress exacting exacting-KeyLaw exacting-BatchLaw "BAT-00000001" created_batch
      (after start (unchanged with_batch with_batch (λ k. refl))) batch_there

-- The world state behind the creation, on the other platform.
abbrev created_world : World
created_world = committed (apply world empty provider create_command producer).1 (λ k. [])

operation_once_example :
    apply world behind provider again_command producer ≡ (err duplicate_transaction, [])
operation_once_example =
    operation_once world world-KeyLaw world-ReceiptLaw empty behind provider provider
      provider-Respects create_command again_command producer producer created_receipt (λ k. [])
      created_world create_accepted
      (after start (unchanged created_world created_world (λ k. refl)))
      (record { reads = λ k. refl }) refl refl again-Presentable
