-- ===== src/Contract/Clock.antt =====
-- The execution that `executionFromStub` makes (contract.go), and the checks on it in domain.go.
use agro_chain.Base.{
  ℕ, ◌^◌, ◌<◌, String, true, false, some, ◌≡◌, refl, subst, arith, or-eq-false, not-eq-false,
  eq_iff,
}
use agro_chain.Base.Int.{ℤ, pos, negsuc, ltz}
use agro_chain.Codes.{ok, from_guard, ok-injective}
use agro_chain.Text.{hex_id}
use agro_chain.Text.Decimal.{parse_int, format_int}
use agro_chain.Text.Decimal.Roundtrip.{parse_int-format_int}
use agro_chain.Step.{Execution}
use agro_chain.Engine.{bad_time, bad_seconds}
use agro_chain.Contract.{Timestamp, execution_from_stub}

good_seconds :
    (n : ℕ) → n < 2 ^ 63 → bad_seconds (parse_int (format_int (pos n))) (format_int (pos n)) ≡ false
unfolding bad_seconds
good_seconds n h =
    rw (parse_int-format_int n h, (eq_iff (format_int (pos n)) _).1 refl) (ground arith)

-- The checks of `executionFromStub` imply those at the head of `engine.apply`.
pub record Passes (x : Execution) : Type 0 where
  pub tx_id : hex_id x.tx_id ≡ true
  pub time : bad_time x.time ≡ false

good_time :
    (z nanos : ℤ)
    → ((n : ℕ) → z ≡ pos n → n < 2 ^ 63)
    → ltz z (pos 0) ≡ false
    → ltz nanos (pos 0) ≡ false
    → ltz (pos 999999999) nanos ≡ false
    → bad_time (record { seconds = format_int z; nanos = nanos }) ≡ false
unfolding bad_time
good_time (pos n) nanos small h₁ h₂ h₃ = rw (good_seconds n (small n refl), h₂, h₃) refl
good_time (negsuc n) nanos small h₁ h₂ h₃ = ground arith

-- If the seconds of the timestamp are below 2 ^ 63, as an int64 is, then the execution that
-- `executionFromStub` makes passes the checks of `engine.apply` on the transaction identifier and on
-- the time: the seconds are printed in the one form that `engine.apply` accepts.
pub execution_from_stub-Passes :
    (ts : Timestamp) (tx_id msp role : String) (x : Execution)
    → ((n : ℕ) → ts.seconds ≡ pos n → n < 2 ^ 63)
    → execution_from_stub (some ts) tx_id msp role ≡ ok x
    → Passes x
unfolding execution_from_stub
execution_from_stub-Passes ts tx_id msp role x small h = from_guard _ _ _ h λ guards h₁.
    let (times, named) = or-eq-false _ _ guards in
    let (low, nanos_high) = or-eq-false _ _ times in
    let (seconds, nanos_low) = or-eq-false _ _ low in
    subst Passes (ok-injective h₁) (record {
      tx_id = not-eq-false _ named;
      time = good_time ts.seconds ts.nanos small seconds nanos_low nanos_high;
    })
