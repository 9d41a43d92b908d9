-- ===== src/Provider/Analysis.antt =====
-- The anomaly of EvaluatePrice (`analysis` of analysis.go).
use agro_chain.Base.{
  refl, true, false, [], ◌∷◌, ◌≡◌, ◌↔◌, subst, arith, eq_iff, not-eq-false, eq_of_not-ne,
}
use agro_chain.Codes.{ok, from_bind, from_guard, ok-injective}
use agro_chain.Model.{Command, Batch, EvidenceRefs, Configuration}
use agro_chain.Model.Evidence.{Opening, PurchaseBody, RetailRecord, CostRecord, AnomalyRecord}
use agro_chain.Model.Evidence.Zero.{zero_opening, zero_retail_record, zero_cost_record}
use agro_chain.Score.{Score, price_score}
use agro_chain.Platform.{Platform, key}
use agro_chain.Ledger.{Ledger}
use agro_chain.Step.{Execution}
use agro_chain.Query.{get_config}
use agro_chain.Evidence.{exact}
use agro_chain.Evidence.Types.{purchase_type, score_type}
use agro_chain.Provider.{Transient, entry_of, private_load}
use agro_chain.Provider.Review.{same_score, bad_binding, first_review_state, anomaly_of, evaluate}

first_review_state-open :
    (r : Score) → (first_review_state r ≡ "OPEN") ↔ (r.classification ≡ "REVIEW_REQUIRED")
unfolding first_review_state
first_review_state-open r =
    ground (arith, eq_iff r.classification "REVIEW_REQUIRED", eq_iff "NOT_REQUIRED" "OPEN")

module _ (p : Platform) (s : Ledger) (t : Transient) (c : Command) (x : Execution) (b : Batch) where
  -- An anomaly with the records that it is derived from.
  pub record Derived (refs : EvidenceRefs) (a : AnomalyRecord) : Type 0 where
    pub config : Configuration
    pub buy : Opening
    pub purchase : PurchaseBody
    pub report : RetailRecord
    pub cost : CostRecord
    pub configured : get_config p s ≡ ok config
    pub bought :
        private_load p.opening zero_opening s "tradePrivate"
          (key p "documentOpening" (refs.purchase_document_id ∷ []))
        ≡ ok buy
    pub claimed : exact p (purchase_type p) buy.body ≡ ok purchase
    pub reported :
        private_load p.retail_record zero_retail_record s "retailAuditPrivate"
          (key p "report" (refs.retail_report_id ∷ []))
        ≡ ok report
    pub carried :
        private_load p.cost_record zero_cost_record s "freightPrivate"
          (key p "cost" (refs.freight_cost_id ∷ []))
        ≡ ok cost
    pub bound : bad_binding b refs purchase report cost ≡ false
    pub policy : report.policy_id ≡ config.policy_id
    pub scored : price_score purchase.price report.input.price config.threshold_bps ≡ ok a.score
    pub proposed : Score
    pub given : exact p (score_type p) (entry_of "proposedResult" t) ≡ ok proposed
    pub confirmed : same_score proposed a.score ≡ true
    pub purchase_price : a.purchase ≡ purchase.price
    pub retail_price : a.retail ≡ report.input.price
    pub threshold : a.threshold ≡ config.threshold_bps
    pub opens : (a.review_state ≡ "OPEN") ↔ (a.score.classification ≡ "REVIEW_REQUIRED")

  -- The anomaly that EvaluatePrice records is not what the caller proposes: its score is the one that
  -- priceScore computes from the purchase price of the stored invoice, the stored retail price and the
  -- configured threshold, all bound to the batch and to each other; the proposal is the same score; and
  -- the review is open exactly if the score requires one.
  pub evaluate-Derived :
      (refs : EvidenceRefs) (a : AnomalyRecord) → evaluate p s t c x b refs ≡ ok a → Derived refs a
  unfolding evaluate anomaly_of
  evaluate-Derived refs a h = from_bind _ _ h λ config configured h₁.
      from_bind _ _ h₁ λ buy bought h₂. from_bind _ _ h₂ λ purchase claimed h₃.
        from_bind _ _ h₃ λ report reported h₄. from_bind _ _ h₄ λ cost carried h₅.
          from_guard _ _ _ h₅ λ bound h₆. from_guard _ _ _ h₆ λ policy h₇.
            from_guard _ _ _ h₇ λ _ h₈. from_bind _ _ h₈ λ result scored h₉.
              from_bind _ _ h₉ λ proposed given g₁. from_guard _ _ _ g₁ λ confirmed g₂.
                from_bind _ _ g₂ λ salt _ g₃. subst (Derived refs) (ok-injective g₃) (record {
                  config = config;
                  buy = buy;
                  purchase = purchase;
                  report = report;
                  cost = cost;
                  configured = configured;
                  bought = bought;
                  claimed = claimed;
                  reported = reported;
                  carried = carried;
                  bound = bound;
                  policy = eq_of_not-ne _ _ policy;
                  scored = scored;
                  proposed = proposed;
                  given = given;
                  confirmed = not-eq-false _ confirmed;
                  purchase_price = refl;
                  retail_price = refl;
                  threshold = refl;
                  opens = first_review_state-open result;
                })
