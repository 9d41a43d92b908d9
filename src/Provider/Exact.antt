-- ===== src/Provider/Exact.antt =====
-- The anomaly of EvaluatePrice, in exact arithmetic (`analysis` and `priceScore` of analysis.go).
use agro_chain.Base.{
  ℕ, ◌+◌, ◌*◌, ◌<◌, Bool, true, false, ◌≡◌, ◌∙◌, ◌↔◌, refl, sym, subst, ap, arith, ltb→lt, lt→ltb,
  ◌==◌, eq_iff,
}
use agro_chain.Base.Int.{ℤ, pos}
use agro_chain.Codes.{ok, ok-injective}
use agro_chain.Model.{Command, Batch, EvidenceRefs}
use agro_chain.Model.Evidence.{AnomalyRecord}
use agro_chain.Score.{Score, price_score, classify}
use agro_chain.Score.Exact.{IsFloor, exceeds, price_score-exact, price_score-in_range}
use agro_chain.Platform.{Platform}
use agro_chain.Ledger.{Ledger}
use agro_chain.Step.{Execution}
use agro_chain.Provider.{Transient}
use agro_chain.Provider.Review.{evaluate}
use agro_chain.Provider.Analysis.{evaluate-Derived}

required_iff : (x : ℤ) (b : Bool) → ((classify x b).classification ≡ "REVIEW_REQUIRED") ↔ (b ≡ true)
unfolding classify
required_iff x true = (λ h. refl, λ h. refl)
required_iff x false = (
  λ h. let bad : ("NO_SIGNAL" == "REVIEW_REQUIRED") ≡ true = (eq_iff _ _).1 h in ground arith,
  λ h. ground arith,
)

increase_kept : (x : ℤ) (b : Bool) → (classify x b).increase ≡ x
unfolding classify
increase_kept x true = refl
increase_kept x false = refl

-- The anomaly that EvaluatePrice records is exact: its increase is the floor of the ratio
-- (retail - purchase) * 10000 / purchase of the two prices that it holds, and its review is open exactly
-- if retail * 10000 exceeds purchase * (10000 + threshold) for the threshold that it holds, with no
-- rounding and no overflow.
pub evaluate_exact :
    (p : Platform) (s : Ledger) (t : Transient) (c : Command) (x : Execution) (b : Batch)
    (refs : EvidenceRefs) (a : AnomalyRecord)
    → evaluate p s t c x b refs ≡ ok a
    → (purchase retail threshold : ℕ) × (a.purchase ≡ pos purchase)
      × (a.retail ≡ pos retail)
      × (a.threshold ≡ pos threshold)
      × IsFloor a.score.increase (retail * 10000) (purchase * 10000) purchase
      × ((a.review_state ≡ "OPEN") ↔ (purchase * (10000 + threshold) < retail * 10000))
evaluate_exact p s t c x b refs a h =
    let d = evaluate-Derived p s t c x b refs a h in
    let (n, r, m, en, er, em, positive, n_max, r_max, m_max) =
      price_score-in_range _ _ _ a.score d.scored in
    let (i, scored, floor) = price_score-exact n r m positive n_max r_max m_max in
    let z = exceeds n r m in
    let same : classify i z ≡ a.score = ok-injective (
      sym scored
      ∙ subst (λ v. price_score (pos n) (pos r) v ≡ ok a.score) em
          (subst (λ v. price_score (pos n) v d.config.threshold_bps ≡ ok a.score) er
            (subst (λ v. price_score v d.report.input.price d.config.threshold_bps ≡ ok a.score) en
              d.scored))) in
    let (to, from) = required_iff i z in
    let (opens, opened) = d.opens in
    (
      n,
      r,
      m,
      d.purchase_price ∙ en,
      d.retail_price ∙ er,
      d.threshold ∙ em,
      subst (λ v. IsFloor v (r * 10000) (n * 10000) n)
          (sym (increase_kept i z) ∙ ap (λ (q : Score). q.increase) same) floor,
      (
        λ o. ltb→lt _ _ (to (ap (λ (q : Score). q.classification) same ∙ opens o)),
        λ l. opened (ap (λ (q : Score). q.classification) (sym same) ∙ from (lt→ltb _ _ l)),
      ),
    )
