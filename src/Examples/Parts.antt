-- ===== src/Examples/Parts.antt =====
-- The theorems on the parts of the engine, applied to the examples, and tests of the texts.
use agro_chain.Model.{query_batches_by_state, accept_pickup, get_batch, offer_delivery}
use agro_chain.Text.Decimal.{valid_date, parse_int, digits_value, format_int}
use agro_chain.Payload.{valid_region}
use agro_chain.Query.Pages.{IsPage, page_query-IsPage}
use agro_chain.Contract.{execution_from_stub}
use agro_chain.Contract.Clock.{Passes, execution_from_stub-Passes}
use agro_chain.Base.{
  ◌^◌, some, eq_iff, ◌⊎◌, inl, ◌==◌, ◌≢◌, ℕ, ◌*◌, ◌<◌, true, false, [], ◌∷◌, ◌≡◌, ◌↔◌, refl, arith,
  All, contains,
}
use agro_chain.Base.Int.{◌*ℤ◌, ◌-ℤ◌, wrap64, rem64, quot64, mul64, sub64, negsuc, ℤ, pos}
use agro_chain.Codes.{
  fail_if, ◌>>=◌, ok, err, wrong_transfer_recipient, invalid_money, policy_mismatch,
}
use agro_chain.Score.{Score, increase_of, price_score, classify}
use agro_chain.Score.Exact.{price_score-exact, exceeds, IsFloor}
use agro_chain.Score.Range.{Within, price_score-cases}
use agro_chain.Json.{read_document, levels, eof}
use agro_chain.Json.Print.{Fits, tokens_of}
use agro_chain.Json.Print.Complete.{read_document_iff}
use agro_chain.Ledger.{flush, planned}
use agro_chain.Ledger.Plan.{committed, after_plan, committed-flush}
use agro_chain.Auth.{authorize, expected, allowed, is_health}
use agro_chain.Auth.Matrix.{authorize_command, authorize_query, authorize-wrong_recipient}
use agro_chain.Text.{hex_id, member}
use agro_chain.Payload.Bounds.{IsParsed, parse_command-IsParsed}
use agro_chain.Step.Evidence.{
  IsPurchase, valid_purchase-IsPurchase, IsFresh, Distinct, consume_documents-Distinct,
}
use agro_chain.Examples.World.{
  clock, producer, on_the_road, world, empty, consumed, small_plan, small_event, proof,
}
use agro_chain.Examples.Data.{
  tx, answered_page, create_command, delivery_command, handoff_tokens, handoff_document,
}
use agro_chain.Examples.Runs.{
  page_answered, command_parsed, documents_consumed, plan_flushed, purchase_valid,
}

read_document_iff_example :
    (read_document handoff_tokens ≡ ok handoff_document)
    ↔ (Fits levels handoff_document × (handoff_tokens ≡ tokens_of handoff_document eof))
read_document_iff_example = read_document_iff handoff_tokens handoff_document

committed-flush_example :
    committed (flush world empty small_plan small_event).1 (λ k. 1 ∷ []) "b"
    ≡ after_plan (planned "b" small_plan) (1 ∷ [])
committed-flush_example =
    committed-flush world empty small_plan small_event (λ k. 1 ∷ []) "b" plan_flushed

-- A price that falls from 3 to 1 by two thirds: -6667 in basis points, rounded down.
price_score-exact_example :
    (x : ℤ) × (price_score (pos 3) (pos 1) (pos 1000) ≡ ok (classify x (exceeds 3 1 1000)))
    × IsFloor x (1 * 10000) (3 * 10000) 3
price_score-exact_example =
    price_score-exact 3 1 1000 (omega arith) (omega arith) (omega arith) (omega arith)

scored : price_score (pos 3) (pos 1) (pos 1000) ≡ ok (classify (negsuc 6666) false)
unfolding price_score increase_of classify sub64 mul64 quot64 rem64 wrap64 ◌-ℤ◌ ◌*ℤ◌ ◌>>=◌ fail_if
scored = refl

-- A price of nothing is refused as money.
price_score-cases_example :
    ((price_score (pos 0) (pos 1) (pos 1000) ≡ err invalid_money)
      × ¬ (Within 1 1000000000 (pos 0) × Within 0 1000000000 (pos 1)))
    ⊎ (((price_score (pos 0) (pos 1) (pos 1000) ≡ err policy_mismatch)
          × Within 1 1000000000 (pos 0)
          × Within 0 1000000000 (pos 1)
          × ¬ Within 0 100000 (pos 1000))
        ⊎ ((s : Score) × (price_score (pos 0) (pos 1) (pos 1000) ≡ ok s)
            × Within 1 1000000000 (pos 0)
            × Within 0 1000000000 (pos 1)
            × Within 0 100000 (pos 1000)))
price_score-cases_example = price_score-cases (pos 0) (pos 1) (pos 1000)

authorize_command_example :
    (authorize "LogisticsMSP" "carrier" accept_pickup ≡ ok tt)
    ↔ (("LogisticsMSP" ≡ (expected accept_pickup).0) × ("carrier" ≡ (expected accept_pickup).1))
unfolding expected
authorize_command_example = authorize_command "LogisticsMSP" "carrier" accept_pickup refl

authorize_query_example :
    (authorize "RegulatorMSP" "auditor" get_batch ≡ ok tt)
    ↔ (contains "auditor" (allowed "RegulatorMSP") ≡ true)
unfolding expected is_health
authorize_query_example = authorize_query "RegulatorMSP" "auditor" get_batch refl refl

producer_not_carrier : "ProducerMSP" ≢ (expected accept_pickup).0
unfolding expected
producer_not_carrier h =
    let bad : ("ProducerMSP" == "LogisticsMSP") ≡ true = (eq_iff _ _).1 h in ground arith

-- The producer is told that it is not the recipient.
producer_refused : authorize "ProducerMSP" "producer" accept_pickup ≡ err wrong_transfer_recipient
unfolding member expected
producer_refused =
    (authorize-wrong_recipient "ProducerMSP" "producer" accept_pickup).1
      (refl, inl (refl, producer_not_carrier))

valid_purchase-IsPurchase_example : IsPurchase proof
valid_purchase-IsPurchase_example = valid_purchase-IsPurchase proof purchase_valid

consume_documents-Distinct_example :
    All (IsFresh world empty create_command) ("DOC-00000002" ∷ "DOC-00000003" ∷ [])
    × Distinct ("DOC-00000002" ∷ "DOC-00000003" ∷ [])
consume_documents-Distinct_example =
    consume_documents-Distinct world empty create_command ("DOC-00000002" ∷ "DOC-00000003" ∷ []) []
      consumed documents_consumed

parse_command-IsParsed_example : IsParsed world offer_delivery delivery_command
parse_command-IsParsed_example =
    parse_command-IsParsed world offer_delivery (3 ∷ []) delivery_command command_parsed

page_query-IsPage_example : IsPage world on_the_road query_batches_by_state "p" answered_page
page_query-IsPage_example =
    page_query-IsPage world on_the_road query_batches_by_state "p" answered_page page_answered

clocked : execution_from_stub (some clock) tx "ProducerMSP" "producer" ≡ ok producer
unfolding execution_from_stub hex_id format_int ◌>>=◌ fail_if
clocked = refl

small_clock : (n : ℕ) → clock.seconds ≡ pos n → n < 2 ^ 63
small_clock n h = ground arith

execution_from_stub-Passes_example : Passes producer
execution_from_stub-Passes_example =
    execution_from_stub-Passes clock tx "ProducerMSP" "producer" producer small_clock clocked

no_leap_day : valid_date "2023-02-29" ≡ false
unfolding valid_date
no_leap_day = refl

signed_region : valid_region "+5" ≡ true
unfolding valid_region parse_int digits_value
signed_region = refl
