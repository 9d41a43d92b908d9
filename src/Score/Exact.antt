-- ===== src/Score/Exact.antt =====
-- The score of in-range prices, in exact arithmetic.
use agro_chain.Base.{
  ℕ, zero, suc, ◌+◌, ◌*◌, ◌-◌, ◌/◌, ◌%◌, ◌≤◌, ◌<◌, ◌≡◌, refl, Bool, ltb, arith, Bool-cases, inl,
  inr, ◌⊎◌, ◌∙◌, ap,
}
use agro_chain.Base.Int.{
  ℤ, pos, negsuc, pos_part, neg_part, ltz, sub_ℕ, sub64, mul64, quot64, rem64, wrap64, ◌-ℤ◌, ◌*ℤ◌,
}
use agro_chain.Codes.{ok, guard-eq-ok, ◌>>=◌, fail_if}
use agro_chain.Score.{Score, price_score, increase_of, classify}

-- The largest price, and the largest threshold.
abbrev pub max_price : ℕ
max_price = 1000000000

abbrev pub max_threshold : ℕ
max_threshold = 100000

-- x is the floor of (a - b) / d.
abbrev pub IsFloor : ℤ → ℕ → ℕ → ℕ → Type 0
IsFloor x a b d =
    (pos_part x * d + b ≤ a + neg_part x * d) × (a + neg_part x * d < (pos_part x + 1) * d + b)

-- The exact comparison of the price increase with the threshold.
abbrev pub exceeds : ℕ → ℕ → ℕ → Bool
exceeds p r t = ltb (p * (10000 + t)) (r * 10000)

diff_up : (p d : ℕ) → p + d ≤ max_price → sub64 (pos (p + d)) (pos p) ≡ pos d
unfolding sub64 ◌-ℤ◌ wrap64
diff_up p d h = ground arith

diff_down : (r d : ℕ) → r + suc d ≤ max_price → sub64 (pos r) (pos (r + suc d)) ≡ negsuc d
unfolding sub64 ◌-ℤ◌ wrap64
diff_down r d h = ground arith

scale_up : (d : ℕ) → d ≤ max_price → mul64 (pos d) (pos 10000) ≡ pos (d * 10000)
unfolding mul64 ◌*ℤ◌ wrap64
scale_up d h = ground arith

scale_down : (d : ℕ) → d ≤ max_price → mul64 (negsuc d) (pos 10000) ≡ negsuc (d * 10000 + 9999)
unfolding mul64 ◌*ℤ◌ wrap64
scale_down d h = ground arith

limit : (p t : ℕ) → p ≤ max_price → t ≤ max_threshold → mul64 (pos p) (pos t) ≡ pos (p * t)
unfolding mul64 ◌*ℤ◌ wrap64
limit p t hp ht = let bound : p * t ≤ 100000000000000 = grind arith in ground arith

division : (n p : ℕ) → 0 < p → (n / p * p + n % p ≡ n) × (n % p < p)
division n p h = grind arith

increase_up :
    (p d : ℕ)
    → 0 < p
    → IsFloor (increase_of (pos (d * 10000)) (pos p)) ((p + d) * 10000) (p * 10000) p
unfolding increase_of quot64
increase_up p d h = ground (arith, division (d * 10000) p h)

-- A negative difference, with its quotient and remainder in magnitude.
increase_neg :
    (n p q m : ℕ)
    → suc n / p ≡ q
    → suc n % p ≡ m
    → q ≤ 10000000000000
    → ((m ≡ 0) × (increase_of (negsuc n) (pos p) ≡ sub_ℕ 0 q))
      ⊎ ((0 < m) × (increase_of (negsuc n) (pos p) ≡ negsuc q))
unfolding increase_of quot64 rem64 sub64 wrap64 ◌-ℤ◌
increase_neg n p zero zero eq em h = rw (eq, em) (inl (refl, ground arith))
increase_neg n p (suc q) zero eq em h = rw (eq, em) (inl (refl, ground arith))
increase_neg n p zero (suc m) eq em h = rw (eq, em) (inr (omega arith, ground arith))
increase_neg n p (suc q) (suc m) eq em h = rw (eq, em) (inr (omega arith, ground arith))

neg-IsFloor :
    (n p a b q : ℕ) (x : ℤ)
    → a + suc n ≡ b
    → q * p ≡ suc n
    → x ≡ sub_ℕ 0 q
    → 0 < p
    → IsFloor x a b p
neg-IsFloor n p a b zero x ea eq ex h = absurd (omega arith)
neg-IsFloor n p a b (suc q) x ea eq ex h = let e : x ≡ negsuc q = ground arith in rw e (omega arith)

neg-IsFloor_down :
    (n p a b q m : ℕ) (x : ℤ)
    → a + suc n ≡ b
    → q * p + m ≡ suc n
    → 0 < m
    → m < p
    → x ≡ negsuc q
    → IsFloor x a b p
neg-IsFloor_down n p a b q m x ea eq lo hi ex = rw ex (omega arith)

increase_down :
    (r d p : ℕ)
    → p ≡ r + suc d
    → p ≤ max_price
    → IsFloor (increase_of (negsuc (d * 10000 + 9999)) (pos p)) (r * 10000) (p * 10000) p
increase_down r d p e h =
    let n : ℕ = d * 10000 + 9999 in
    let (whole, rest) = division (suc n) p (omega arith) in
    elim (increase_neg n p (suc n / p) (suc n % p) refl refl (omega arith)) [
      | inl (exact, x) ↦
          neg-IsFloor n p (r * 10000) (p * 10000) (suc n / p) _ (omega arith) (omega arith) x
            (omega arith)
      | inr (lo, x) ↦
          neg-IsFloor_down n p (r * 10000) (p * 10000) (suc n / p) (suc n % p) _ (omega arith) whole
            lo rest x
    ]

-- The two ways that the prices can lie.
price_cases : (p r : ℕ) → ((d : ℕ) × (r ≡ p + d)) ⊎ ((d : ℕ) × (p ≡ r + suc d))
price_cases p r = elim (Bool-cases (ltb r p)) [
  | inl less ↦ inr (p - r - 1, ground arith)
  | inr more ↦ inl (r - p, ground arith)
]

score_accepts :
    (p r t : ℕ) (n : ℤ)
    → 0 < p
    → p ≤ max_price
    → r ≤ max_price
    → t ≤ max_threshold
    → mul64 (sub64 (pos r) (pos p)) (pos 10000) ≡ n
    → price_score (pos p) (pos r) (pos t)
      ≡ ok (classify (increase_of n (pos p)) (ltz (pos (p * t)) n))
unfolding price_score ◌>>=◌ fail_if
score_accepts p r t n hp p_max r_max t_max e = ground (arith, limit p t p_max t_max)

compare_up : (p d t : ℕ) → ltz (pos (p * t)) (pos (d * 10000)) ≡ exceeds p (p + d) t
compare_up p d t = ground arith

compare_down :
    (p r d t : ℕ) → p ≡ r + suc d → ltz (pos (p * t)) (negsuc (d * 10000 + 9999)) ≡ exceeds p r t
compare_down p r d t e = ground arith

-- For prices and a threshold in range the score is accepted; the increase is the floor of the exact
-- ratio (retail - purchase) * 10000 / purchase, for a fall of the price too; and a review is required
-- exactly when retail * 10000 exceeds purchase * (10000 + threshold), with no rounding. No int64
-- product or difference on the way wraps.
pub price_score-exact :
    (p r t : ℕ)
    → 0 < p
    → p ≤ max_price
    → r ≤ max_price
    → t ≤ max_threshold
    → (x : ℤ) × (price_score (pos p) (pos r) (pos t) ≡ ok (classify x (exceeds p r t)))
      × IsFloor x (r * 10000) (p * 10000) p
price_score-exact p r t hp p_max r_max t_max = elim (price_cases p r) [
  | inl (d, e) ↦ rw e (
    increase_of (pos (d * 10000)) (pos p),
    score_accepts p (p + d) t (pos (d * 10000)) hp p_max (omega arith) t_max
          (rw (diff_up p d (omega arith)) (scale_up d (omega arith)))
        ∙ ap (λ b. ok (classify (increase_of (pos (d * 10000)) (pos p)) b)) (compare_up p d t),
    increase_up p d hp,
  )
  | inr (d, e) ↦ (
    increase_of (negsuc (d * 10000 + 9999)) (pos p),
    score_accepts p r t (negsuc (d * 10000 + 9999)) hp p_max r_max t_max
          (rw (e, diff_down r d (omega arith)) (scale_down d (omega arith)))
        ∙ ap (λ b. ok (classify (increase_of (negsuc (d * 10000 + 9999)) (pos p)) b))
            (compare_down p r d t e),
    increase_down r d p e p_max,
  )
]

-- A score that is given has its three values in range.
pub price_score-in_range :
    (purchase retail threshold : ℤ) (s : Score)
    → price_score purchase retail threshold ≡ ok s
    → (p r t : ℕ) × (purchase ≡ pos p)
      × (retail ≡ pos r)
      × (threshold ≡ pos t)
      × (0 < p)
      × (p ≤ max_price)
      × (r ≤ max_price)
      × (t ≤ max_threshold)
unfolding price_score
price_score-in_range (pos p) (pos r) (pos t) s h =
    let (money, h1) = guard-eq-ok _ _ _ h in
    let (policy, _) = guard-eq-ok _ _ _ h1 in
    (p, r, t, refl, refl, refl, ground arith, ground arith, ground arith, ground arith)
price_score-in_range (negsuc p) r t s h = let (money, _) = guard-eq-ok _ _ _ h in ground arith
price_score-in_range (pos p) (negsuc r) t s h = let (money, _) = guard-eq-ok _ _ _ h in ground arith
price_score-in_range (pos p) (pos r) (negsuc t) s h =
    let (_, h1) = guard-eq-ok _ _ _ h in let (policy, _) = guard-eq-ok _ _ _ h1 in ground arith
