-- ===== src/Score.antt =====
-- The price-increase score (`score`, `priceScore` in analysis.go). The prices are int64: every
-- product and difference is Go's, with its wrap-around.
pub mod Exact
pub mod Range
use agro_chain.Base.{ℕ, ◌*◌, String, Bool, true, false, ◌&&◌, ◌||◌, not, if◌then◌else◌}
use agro_chain.Base.Int.{ℤ, pos, pos_part, ltz, eqz, sub64, mul64, quot64, rem64}
use agro_chain.Codes.{Code, Result, ok, err, invalid_money, policy_mismatch, ◌>>=◌, ◌>>◌, fail_if}

pub record Score : Type 0 where
  pub increase : ℤ
  pub classification : String
  pub reason : String

-- The quotient rounded down: Go's `/` truncates, so a negative remainder takes one more off.
unfoldable pub increase_of : ℤ → ℤ → ℤ
increase_of numerator purchase =
    let quotient = quot64 numerator (pos_part purchase) in
    if ltz numerator (pos 0) && not (eqz (rem64 numerator (pos_part purchase)) (pos 0))
    then sub64 quotient (pos 1)
    else quotient

unfoldable pub classify : ℤ → Bool → Score
classify increase true = record {
  increase = increase;
  classification = "REVIEW_REQUIRED";
  reason = "ABOVE_PILOT_THRESHOLD";
}
classify increase false = record {
  increase = increase;
  classification = "NO_SIGNAL";
  reason = "WITHIN_PILOT_THRESHOLD";
}

-- `purchase` is above zero where the division is reached.
unfoldable pub price_score : ℤ → ℤ → ℤ → Result Score
price_score purchase retail threshold = do
  fail_if
      (not (ltz (pos 0) purchase)
        || ltz (pos 1000000000) purchase
        || ltz retail (pos 0)
        || ltz (pos 1000000000) retail)
      invalid_money
  fail_if (ltz threshold (pos 0) || ltz (pos 100000) threshold) policy_mismatch
  let numerator = mul64 (sub64 retail purchase) (pos 10000)
  ok (classify (increase_of numerator purchase) (ltz (mul64 purchase threshold) numerator))
