-- ===== src/Engine/Frame.antt =====
-- What an accepted command leaves alone: the batches, the operations and the rest of the keys that are
-- not its own.
use agro_chain.Base.{
  String, Bool, true, false, List, [], ◌∷◌, none, ◌≡◌, ◌∙◌, refl, subst, ap, ◌==◌, contains,
}
use agro_chain.Codes.{Result, ok, from_bind, from_guard, from_step, ok-injective, err-ne-ok}
use agro_chain.Model.{
  Bytes, Fn, Command, Batch, EvidenceRefs, Receipt, create_batch, offer_pickup, accept_pickup,
  record_freight_cost, offer_delivery, accept_delivery, report_retail_price, evaluate_price,
  open_review, resolve_review,
}
use agro_chain.Platform.{Platform, key}
use agro_chain.Ledger.{Ledger, WritePlan, planned}
use agro_chain.Ledger.Plan.{committed, after_plan}
use agro_chain.Step.{Execution, Verified, Outcome}
use agro_chain.Step.Documents.{consume_document, consume_documents}
use agro_chain.Step.Create.{create, analyse}
use agro_chain.Step.Handoff.{Papers, pickup_papers, delivery_papers, papers, offer, accept}
use agro_chain.Step.Retail.{record_freight, report_retail}
use agro_chain.Engine.{run, record_all, updated, apply}
use agro_chain.Engine.Accepted.{decide-Accepted}
use agro_chain.Engine.Clean.{IsClean, empty-IsClean, assign-IsClean, put_value-IsClean}
use agro_chain.Engine.Commits.{batch_key, operation_key}
use agro_chain.Engine.Effects.{apply-ok}
use agro_chain.Engine.Written.{KeyLaw, Respects, reserved, key-ne, planned-put_other, planned-final}

module _ (p : Platform) (c : Command) (x : Execution) where
  -- A key of another kind than the indexes, that is neither the batch nor the operation of a command.
  pub record Foreign (kind : String) (attrs : List String) : Type 0 where
    pub named : contains kind reserved ≡ true
    pub evidence : ("batchEvidence" == kind) ≡ false
    pub history : ("history" == kind) ≡ false
    pub owner : ("owner" == kind) ≡ false
    pub state : ("state" == kind) ≡ false
    pub batch : (batch_key p c == key p kind attrs) ≡ false
    pub operation : (operation_key p c x == key p kind attrs) ≡ false

module _ (p : Platform) (law : KeyLaw p) (s : Ledger) (c : Command) (x : Execution) where
  consume_document-IsClean :
      (id : String) (plan plan' : WritePlan)
      → IsClean p plan
      → consume_document p s c id plan ≡ ok plan'
      → IsClean p plan'
  unfolding consume_document
  consume_document-IsClean id plan plan' clean h = from_guard _ _ _ h λ _ h₁.
      from_step _ _ h₁ λ _ h₂.
        from_step _ _ h₂
          λ _ h₃. put_value-IsClean p law _ "documentReference" _ _ plan plan' refl clean h₃

  consume_documents-IsClean :
      (ids : List String) (plan plan' : WritePlan)
      → IsClean p plan
      → consume_documents p s c ids plan ≡ ok plan'
      → IsClean p plan'
  unfolding consume_documents
  consume_documents-IsClean [] plan plan' clean h = subst (IsClean p) (ok-injective h) clean
  consume_documents-IsClean (id ∷ ids) plan plan' clean h = from_bind _ _ h λ next one rest.
      consume_documents-IsClean ids next plan' (consume_document-IsClean id plan next clean one)
        rest

  papers-IsClean :
      (is_delivery : Bool) (proof : Verified) (b : Batch) (refs : EvidenceRefs) (found : Papers)
      → papers p s c x is_delivery proof b refs ≡ ok found
      → IsClean p found.plan
  unfolding papers pickup_papers delivery_papers
  papers-IsClean false proof b refs found h = from_guard _ _ _ h λ _ h₁. from_guard _ _ _ h₁ λ _ h₂.
      from_guard _ _ _ h₂ λ _ h₃. from_bind _ _ h₃ λ plan taken h₄.
        subst (IsClean p) (ap (λ (f : Papers). f.plan) (ok-injective h₄))
          (consume_documents-IsClean _ [] plan (empty-IsClean p) taken)
  papers-IsClean true proof b refs found h =
      from_guard _ _ _ h
        λ _ h₁. subst (IsClean p) (ap (λ (f : Papers). f.plan) (ok-injective h₁)) (empty-IsClean p)

  abbrev Clean : Outcome → Type 0
  Clean o = IsClean p o.plan

  create-Clean :
      (proof : Verified) (refs : EvidenceRefs) (o : Outcome)
      → create p s c x proof refs ≡ ok o
      → Clean o
  unfolding create
  create-Clean proof refs o h = from_guard _ _ _ h λ _ h₁. from_bind _ _ h₁ λ plan taken h₂.
      subst Clean (ok-injective h₂) (consume_document-IsClean _ [] plan (empty-IsClean p) taken)

  offer-Clean :
      (is_delivery : Bool) (proof : Verified) (b : Batch) (refs : EvidenceRefs) (o : Outcome)
      → offer p s c x is_delivery proof b refs ≡ ok o
      → Clean o
  unfolding offer
  offer-Clean is_delivery proof b refs o h = from_guard _ _ _ h λ _ h₁. from_guard _ _ _ h₁ λ _ h₂.
      from_guard _ _ _ h₂ λ _ h₃. from_step _ _ h₃ λ _ h₄. from_step _ _ h₄ λ _ h₅.
        from_bind _ _ h₅ λ found given h₆. from_bind _ _ h₆ λ p₁ e₁ h₇. from_bind _ _ h₇ λ p₂ e₂ h₈.
          subst Clean (ok-injective h₈) (
            put_value-IsClean p law _ "pendingTransfer" _ _ p₁ p₂ refl
              (put_value-IsClean p law _ "transfer" _ _ found.plan p₁ refl
                (papers-IsClean is_delivery proof b refs found given) e₁)
              e₂)

  accept-Clean :
      (is_delivery : Bool) (b : Batch) (refs : EvidenceRefs) (o : Outcome)
      → accept p s c x is_delivery b refs ≡ ok o
      → Clean o
  unfolding accept
  accept-Clean is_delivery b refs o h = from_bind _ _ h λ loaded _ h₁. from_step _ _ h₁ λ _ h₂.
      from_bind _ _ h₂ λ pending _ h₃. from_step _ _ h₃ λ _ h₄. from_bind _ _ h₄ λ plan e h₅.
        subst Clean (ok-injective h₅) (
          assign-IsClean p law "pendingTransfer" _ none plan refl
            (put_value-IsClean p law _ "transfer" _ _ [] plan refl (empty-IsClean p) e))

  record_freight-Clean :
      (proof : Verified) (b : Batch) (refs : EvidenceRefs) (o : Outcome)
      → record_freight p s c x proof b refs ≡ ok o
      → Clean o
  unfolding record_freight
  record_freight-Clean proof b refs o h = from_guard _ _ _ h λ _ h₁. from_guard _ _ _ h₁ λ _ h₂.
      from_guard _ _ _ h₂ λ _ h₃. from_step _ _ h₃ λ _ h₄. from_guard _ _ _ h₄ λ _ h₅.
        from_guard _ _ _ h₅ λ _ h₆. from_bind _ _ h₆ λ plan e h₇.
          subst Clean (ok-injective h₇)
            (put_value-IsClean p law _ "costReference" _ _ [] plan refl (empty-IsClean p) e)

  report_retail-Clean :
      (proof : Verified) (b : Batch) (refs : EvidenceRefs) (o : Outcome)
      → report_retail p s c x proof b refs ≡ ok o
      → Clean o
  unfolding report_retail
  report_retail-Clean proof b refs o h = from_guard _ _ _ h λ _ h₁. from_guard _ _ _ h₁ λ _ h₂.
      from_guard _ _ _ h₂ λ _ h₃. from_guard _ _ _ h₃ λ _ h₄. from_step _ _ h₄ λ _ h₅.
        from_step _ _ h₅ λ _ h₆. from_guard _ _ _ h₆ λ _ h₇. from_guard _ _ _ h₇ λ _ h₈.
          from_guard _ _ _ h₈ λ _ h₉. from_bind _ _ h₉ λ p₁ e₁ g₁. from_bind _ _ g₁ λ p₂ e₂ g₂.
            subst Clean (ok-injective g₂) (
              put_value-IsClean p law _ "reportReference" _ _ p₁ p₂ refl
                (put_value-IsClean p law _ "lot" _ _ [] p₁ refl (empty-IsClean p) e₁) e₂)

  analyse-Clean :
      (proof : Verified) (is_evaluation : Bool) (b : Batch) (refs : EvidenceRefs) (o : Outcome)
      → analyse p s c x proof is_evaluation b refs ≡ ok o
      → Clean o
  unfolding analyse
  analyse-Clean proof is_evaluation b refs o h = subst Clean (ok-injective h) (empty-IsClean p)

  -- No case of the `switch` plans a write of the keys of the common end.
  run-Clean :
      (fn : Fn) (proof : Verified) (b : Batch) (refs : EvidenceRefs) (o : Outcome)
      → run p s fn c x proof b refs ≡ ok o
      → Clean o
  unfolding run
  run-Clean evaluate_price proof b refs o h = analyse-Clean proof true b refs o h
  run-Clean open_review proof b refs o h = analyse-Clean proof false b refs o h
  run-Clean resolve_review proof b refs o h = analyse-Clean proof false b refs o h
  run-Clean create_batch proof b refs o h = create-Clean proof refs o h
  run-Clean offer_pickup proof b refs o h = offer-Clean false proof b refs o h
  run-Clean offer_delivery proof b refs o h = offer-Clean true proof b refs o h
  run-Clean accept_pickup proof b refs o h = accept-Clean false b refs o h
  run-Clean accept_delivery proof b refs o h = accept-Clean true b refs o h
  run-Clean record_freight_cost proof b refs o h = record_freight-Clean proof b refs o h
  run-Clean report_retail_price proof b refs o h = report_retail-Clean proof b refs o h
  run-Clean _ proof b refs o h = absurd (err-ne-ok h)

  record_all-frame :
      (b : Batch) (refs : EvidenceRefs) (receipt : Receipt) (plan plan' : WritePlan) (kind : String)
      (attrs : List String)
      → Foreign p c x kind attrs
      → record_all p s c x b refs receipt plan ≡ ok plan'
      → planned (key p kind attrs) plan' ≡ planned (key p kind attrs) plan
  unfolding record_all
  record_all-frame b refs receipt plan plan' kind attrs other h = from_bind _ _ h λ p₁ e₁ h₁.
      from_bind _ _ h₁ λ p₂ e₂ h₂. from_bind _ _ h₂ λ p₃ e₃ h₃. from_bind _ _ h₃ λ p₄ e₄ h₄.
        from_bind _ _ h₄ λ p₅ e₅ e₆.
          planned-put_other p p.text _ _ _ _ _ e₆ (key-ne p law "state" kind _ _ other.state)
          ∙ planned-put_other p p.text _ _ _ _ _ e₅ (key-ne p law "owner" kind _ _ other.owner)
          ∙ planned-put_other p p.receipt _ _ _ _ _ e₄
              (key-ne p law "history" kind _ _ other.history)
          ∙ planned-put_other p p.receipt _ _ _ _ _ e₃ other.operation
          ∙ planned-put_other p p.refs _ _ _ _ _ e₂
              (key-ne p law "batchEvidence" kind _ _ other.evidence)
          ∙ planned-put_other p p.batch _ _ _ _ _ e₁ other.batch

  -- The commit of an accepted command leaves the batch record of every other batch and the receipt of
  -- every other operation as they were.
  pub apply-frame :
      (prepare : Command → Batch → EvidenceRefs → Result Verified) (respects : Respects p prepare)
      (r : Receipt) (w : String → Bytes) (kind : String) (attrs : List String)
      → Foreign p c x kind attrs
      → (apply p s prepare c x).0 ≡ ok r
      → committed (apply p s prepare c x).1 w (key p kind attrs) ≡ w (key p kind attrs)
  apply-frame prepare respects r w kind attrs other h =
      let (d, decided, receipt, effect) = apply-ok p s prepare c x r h in
      let a = decide-Accepted p s c x prepare d decided in
      effect w (key p kind attrs)
      ∙ ap (λ o. after_plan o (w (key p kind attrs)))
          (ap (planned (key p kind attrs)) a.planned
            ∙ planned-final p law s a.exists a.old (updated x a.old a.outcome.batch) a.plan
                a.proof.public kind attrs other.state other.owner
                (respects.avoids c a.old a.loaded_refs.1 a.proof kind attrs a.prepared other.named)
            ∙ record_all-frame _ _ _ _ a.plan kind attrs other a.recorded
            ∙ (run-Clean c.command a.proof a.old a.loaded_refs.1 a.outcome a.ran).free kind attrs
                other.named)
