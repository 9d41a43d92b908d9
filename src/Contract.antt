-- ===== src/Contract.antt =====
-- Who executes (`executionFromStub` and `isMutation` in contract.go).
pub mod Clock
pub mod Dispatch
pub mod Reads
pub mod Callers
pub mod Adapter
use agro_chain.Base.{String, Bool, true, false, not, ◌||◌, Option, none, some}
use agro_chain.Base.Int.{ℤ, pos, ltz}
use agro_chain.Codes.{Result, ok, err, internal_error, ◌>>=◌, ◌>>◌, fail_if}
use agro_chain.Text.{hex_id}
use agro_chain.Text.Decimal.{format_int}
use agro_chain.Model.{
  Fn, create_batch, offer_pickup, accept_pickup, record_freight_cost, offer_delivery,
  accept_delivery, report_retail_price, evaluate_price, open_review, resolve_review,
}
use agro_chain.Step.{Execution}

-- The protobuf timestamp of a proposal: an int64 and an int32.
pub record Timestamp : Type 0 where
  pub seconds : ℤ
  pub nanos : ℤ

unfoldable pub is_mutation : Fn → Bool
is_mutation create_batch = true
is_mutation offer_pickup = true
is_mutation accept_pickup = true
is_mutation record_freight_cost = true
is_mutation offer_delivery = true
is_mutation accept_delivery = true
is_mutation report_retail_price = true
is_mutation evaluate_price = true
is_mutation open_review = true
is_mutation resolve_review = true
is_mutation _ = false

-- The timestamp is `none` where GetTxTimestamp gives an error or nil.
unfoldable pub execution_from_stub : Option Timestamp → String → String → String → Result Execution
execution_from_stub none tx_id msp role = err internal_error
execution_from_stub (some ts) tx_id msp role = do
  fail_if
      (ltz ts.seconds (pos 0)
        || ltz ts.nanos (pos 0)
        || ltz (pos 999999999) ts.nanos
        || not (hex_id tx_id))
      internal_error
  ok (record {
    actor = msp;
    role = role;
    tx_id = tx_id;
    time = record { seconds = format_int ts.seconds; nanos = ts.nanos };
  })
