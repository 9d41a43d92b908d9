-- ===== src/Score/Range.antt =====
-- Which values the score is refused for, and with which code (`priceScore` in analysis.go).
use agro_chain.Base.{
  ℕ, ◌≤◌, Bool, true, false, not, ◌||◌, ◌≡◌, ◌⊎◌, inl, inr, refl, arith, Bool-cases,
}
use agro_chain.Base.Int.{ℤ, pos, negsuc, ltz, sub64, mul64}
use agro_chain.Codes.{ok, err, invalid_money, policy_mismatch, ◌>>=◌, fail_if}
use agro_chain.Score.{Score, price_score, increase_of, classify}

-- Between two natural numbers, for an int64 value.
abbrev pub Within : ℕ → ℕ → ℤ → Type 0
Within lo hi z = (n : ℕ) × (z ≡ pos n) × (lo ≤ n) × (n ≤ hi)

-- The two tests of the source.
abbrev bad_money : ℤ → ℤ → Bool
bad_money purchase retail =
    not (ltz (pos 0) purchase)
    || ltz (pos 1000000000) purchase
    || ltz retail (pos 0)
    || ltz (pos 1000000000) retail

abbrev bad_threshold : ℤ → Bool
bad_threshold threshold = ltz threshold (pos 0) || ltz (pos 100000) threshold

negsuc-Within : (lo hi n : ℕ) → ¬ Within lo hi (negsuc n)
negsuc-Within lo hi n (m, e, _, _) = ground arith

pos-Within : (lo hi n : ℕ) → Within lo hi (pos n) → (lo ≤ n) × (n ≤ hi)
pos-Within lo hi n (m, e, least, most) = (ground arith, ground arith)

good_money :
    (p r : ℕ) → bad_money (pos p) (pos r) ≡ true → 1 ≤ p → p ≤ 1000000000 → r ≤ 1000000000 → ⊥
good_money p r h lo hi top = ground arith

good_threshold : (t : ℕ) → bad_threshold (pos t) ≡ true → t ≤ 100000 → ⊥
good_threshold t h top = ground arith

money_cases :
    (p r : ℤ)
    → ((bad_money p r ≡ true) × ¬ (Within 1 1000000000 p × Within 0 1000000000 r))
      ⊎ ((bad_money p r ≡ false) × Within 1 1000000000 p × Within 0 1000000000 r)
money_cases (negsuc p) r = inl (ground arith, λ (w, _). negsuc-Within _ _ p w)
money_cases (pos p) (negsuc r) = inl (ground arith, λ (_, w). negsuc-Within _ _ r w)
money_cases (pos p) (pos r) = elim (Bool-cases (bad_money (pos p) (pos r))) [
  | inl bad ↦ inl (
    bad,
    λ (v, w). let (lo, hi) = pos-Within _ _ p v in good_money p r bad lo hi (pos-Within _ _ r w).1,
  )
  | inr good ↦
      inr (good, (p, refl, ground arith, ground arith), (r, refl, ground arith, ground arith))
]

threshold_cases :
    (t : ℤ)
    → ((bad_threshold t ≡ true) × ¬ Within 0 100000 t)
      ⊎ ((bad_threshold t ≡ false) × Within 0 100000 t)
threshold_cases (negsuc t) = inl (ground arith, negsuc-Within _ _ t)
threshold_cases (pos t) = elim (Bool-cases (bad_threshold (pos t))) [
  | inl bad ↦ inl (bad, λ w. good_threshold t bad (pos-Within _ _ t w).1)
  | inr good ↦ inr (good, (t, refl, ground arith, ground arith))
]

-- The score of values in range.
abbrev scored : ℤ → ℤ → ℤ → Score
scored purchase retail threshold =
    let numerator = mul64 (sub64 retail purchase) (pos 10000) in
    classify (increase_of numerator purchase) (ltz (mul64 purchase threshold) numerator)

-- Whatever the three int64 values are, priceScore refuses them with INVALID_MONEY if the purchase price
-- is not from 1 to 1000000000 or the retail price not from 0 to 1000000000; with POLICY_MISMATCH if
-- both prices are in range and the threshold is not from 0 to 100000; and else gives a score.
pub price_score-cases :
    (purchase retail threshold : ℤ)
    → ((price_score purchase retail threshold ≡ err invalid_money)
        × ¬ (Within 1 1000000000 purchase × Within 0 1000000000 retail))
      ⊎ (((price_score purchase retail threshold ≡ err policy_mismatch)
            × Within 1 1000000000 purchase
            × Within 0 1000000000 retail
            × ¬ Within 0 100000 threshold)
          ⊎ ((s : Score) × (price_score purchase retail threshold ≡ ok s)
              × Within 1 1000000000 purchase
              × Within 0 1000000000 retail
              × Within 0 100000 threshold))
unfolding price_score ◌>>=◌ fail_if
price_score-cases purchase retail threshold = elim (money_cases purchase retail) [
  | inl (bad, out) ↦ inl (rw bad refl, out)
  | inr (good, p, r) ↦ elim (threshold_cases threshold) [
    | inl (bad, out) ↦ inr (inl (rw (good, bad) refl, p, r, out))
    | inr (fine, t) ↦ inr (inr (scored purchase retail threshold, rw (good, fine) refl, p, r, t))
  ]
]
