-- ===== src/Step/Facts.antt =====
-- What each command of the `switch` has checked when it succeeds, and the batch that it leaves.
use agro_chain.Base.{
  String, Bool, false, not, ◌&&◌, ◌≡◌, ◌⊎◌, refl, sym, subst, ap, arith, ◌==◌, eq_iff, eq_of_not-ne,
  or-eq-false, not-eq-false,
}
use agro_chain.Base.Int.{eqz→eq}
use agro_chain.Codes.{ok, from_bind, from_guard, from_step, ok-injective, guard_last}
use agro_chain.Model.{
  Command, Batch, EvidenceRefs, Transfer, in_transport, delivery_pending, received, retail_reported,
}
use agro_chain.Model.Zero.{zero_create}
use agro_chain.Platform.{Platform}
use agro_chain.Ledger.{Ledger}
use agro_chain.Step.{Execution, Verified, Outcome}
use agro_chain.Step.Create.{new_batch, create, analyse}
use agro_chain.Step.Handoff.{
  offer_leg, accept_leg, handoff, offer, accept, check_transfer, check_accept, moved,
}
use agro_chain.Step.Retail.{bad_freight, bad_retail, report, record_freight, report_retail}

module _ (p : Platform) (s : Ledger) (c : Command) (x : Execution) where
  pub create-batch :
      (proof : Verified) (refs : EvidenceRefs) (o : Outcome)
      → create p s c x proof refs ≡ ok o
      → (o.batch ≡ new_batch c x (p.create_input.unmarshal zero_create c.payload).0)
        × (proof.quantity ≡ (p.create_input.unmarshal zero_create c.payload).0.quantity_grams)
  unfolding create new_batch
  create-batch proof refs o h = from_guard _ _ _ h λ same h₁. from_bind _ _ h₁ λ plan _ h₂.
      (ap (λ (r : Outcome). r.batch) (sym (ok-injective h₂)), eqz→eq _ _ (not-eq-false _ same))

  pub analyse-batch :
      (proof : Verified) (is_evaluation : Bool) (b : Batch) (refs : EvidenceRefs) (o : Outcome)
      → analyse p s c x proof is_evaluation b refs ≡ ok o
      → b ≡ o.batch
  unfolding analyse
  analyse-batch proof is_evaluation b refs o h = ap (λ (r : Outcome). r.batch) (ok-injective h)

  -- The guards of an offer.
  pub record Offered (is_delivery : Bool) (b : Batch) (o : Outcome) : Type 0 where
    pub state : b.state ≡ (offer_leg is_delivery b).state
    pub custodian : x.actor ≡ b.custodian_msp
    pub quantity : (handoff p s c x).quantity_grams ≡ b.quantity_grams
    pub batch : o.batch ≡ record b { state = (offer_leg is_delivery b).next }

  pub offer-Offered :
      (is_delivery : Bool) (proof : Verified) (b : Batch) (refs : EvidenceRefs) (o : Outcome)
      → offer p s c x is_delivery proof b refs ≡ ok o
      → Offered is_delivery b o
  unfolding offer
  offer-Offered is_delivery proof b refs o h = from_guard _ _ _ h λ state h₁.
      from_guard _ _ _ h₁ λ holders h₂. from_guard _ _ _ h₂ λ quantity h₃. from_step _ _ h₃ λ _ h₄.
        from_step _ _ h₄ λ _ h₅. from_bind _ _ h₅ λ found _ h₆. from_bind _ _ h₆ λ plan₁ _ h₇.
          from_bind _ _ h₇ λ plan₂ _ h₈. subst (Offered is_delivery b) (ok-injective h₈) (record {
            state = eq_of_not-ne _ _ state;
            custodian = eq_of_not-ne _ _ (or-eq-false _ _ holders).0;
            quantity = eqz→eq _ _ (not-eq-false _ quantity);
            batch = refl;
          })

  -- The guards of an acceptance.
  pub record Moved (is_delivery : Bool) (b : Batch) (refs : EvidenceRefs) (o : Outcome)
      : Type 0 where
    pub transfer : Transfer
    pub recipient : transfer.to_msp ≡ x.actor
    pub sender : transfer.from_msp ≡ b.custodian_msp
    pub state : b.state ≡ (accept_leg is_delivery x.actor).state
    pub quantity : (handoff p s c x).quantity_grams ≡ b.quantity_grams
    pub carried : transfer.quantity_grams ≡ b.quantity_grams
    pub freight : (is_delivery && refs.freight_cost_id == "") ≡ false
    pub batch : o.batch ≡ moved p s c x is_delivery b

  pub accept-Moved :
      (is_delivery : Bool) (b : Batch) (refs : EvidenceRefs) (o : Outcome)
      → accept p s c x is_delivery b refs ≡ ok o
      → Moved is_delivery b refs o
  unfolding accept check_transfer check_accept
  accept-Moved is_delivery b refs o h = from_bind _ _ h λ loaded _ h₁.
      from_step _ _ h₁ λ checked h₂. from_bind _ _ h₂ λ pending _ h₃. from_step _ _ h₃ λ guards h₄.
        from_bind _ _ h₄ λ plan _ h₅. from_guard _ _ _ checked λ _ to.
          from_guard _ _ _ guards λ state g₁. from_guard _ _ _ g₁ λ quantity g₂.
            from_guard _ _ _ g₂ λ sender freight.
              subst (Moved is_delivery b refs) (ok-injective h₅) (record {
                transfer = loaded.1;
                recipient = eq_of_not-ne _ _ (guard_last _ _ to);
                sender = eq_of_not-ne _ _ sender;
                state =
                    eq_of_not-ne _ _
                      (or-eq-false _ _ (or-eq-false _ _ (or-eq-false _ _ state).0).0).0;
                quantity = eqz→eq _ _ (not-eq-false _ (or-eq-false _ _ quantity).0);
                carried = eqz→eq _ _ (not-eq-false _ (or-eq-false _ _ quantity).1);
                freight = guard_last _ _ freight;
                batch = refl;
              })

  -- The guards of a freight cost, which leaves the batch as it is.
  pub record Costed (proof : Verified) (b : Batch) (refs : EvidenceRefs) (o : Outcome)
      : Type 0 where
    pub state : (b.state ≡ in_transport) ⊎ (b.state ≡ delivery_pending)
    pub custodian : b.custodian_msp ≡ x.actor
    pub first : refs.freight_cost_id ≡ ""
    pub quantity : proof.quantity ≡ b.quantity_grams
    pub money : bad_freight proof ≡ false
    pub batch : o.batch ≡ b

  one_of : (a b c' : String) → (not (a == b) && not (a == c')) ≡ false → (a ≡ b) ⊎ (a ≡ c')
  one_of a b c' h = ground (arith, eq_iff a b, eq_iff a c')

  pub record_freight-Costed :
      (proof : Verified) (b : Batch) (refs : EvidenceRefs) (o : Outcome)
      → record_freight p s c x proof b refs ≡ ok o
      → Costed proof b refs o
  unfolding record_freight
  record_freight-Costed proof b refs o h = from_guard _ _ _ h λ state h₁.
      from_guard _ _ _ h₁ λ custodian h₂. from_guard _ _ _ h₂ λ first h₃. from_step _ _ h₃ λ _ h₄.
        from_guard _ _ _ h₄ λ quantity h₅. from_guard _ _ _ h₅ λ money h₆.
          from_bind _ _ h₆ λ plan _ h₇. subst (Costed proof b refs) (ok-injective h₇) (record {
            state = one_of _ _ _ state;
            custodian = eq_of_not-ne _ _ custodian;
            first = eq_of_not-ne _ _ first;
            quantity = eqz→eq _ _ (not-eq-false _ quantity);
            money = money;
            batch = refl;
          })

  -- The guards of a retail report.
  pub record Reported (proof : Verified) (b : Batch) (refs : EvidenceRefs) (o : Outcome)
      : Type 0 where
    pub state : b.state ≡ received
    pub owner : b.owner_msp ≡ x.actor
    pub custodian : b.custodian_msp ≡ x.actor
    pub first : b.retail_lot_id ≡ ""
    pub quantity : proof.quantity ≡ b.quantity_grams
    pub money : bad_retail proof ≡ false
    pub policy : (report p s c x proof).policy_id ≡ proof.policy_id
    pub batch :
        o.batch
        ≡ record b { retail_lot_id = (report p s c x proof).retail_lot_id; state = retail_reported }

  pub report_retail-Reported :
      (proof : Verified) (b : Batch) (refs : EvidenceRefs) (o : Outcome)
      → report_retail p s c x proof b refs ≡ ok o
      → Reported proof b refs o
  unfolding report_retail
  report_retail-Reported proof b refs o h = from_guard _ _ _ h λ state h₁.
      from_guard _ _ _ h₁ λ holders h₂. from_guard _ _ _ h₂ λ _ h₃. from_guard _ _ _ h₃ λ first h₄.
        from_step _ _ h₄ λ _ h₅. from_step _ _ h₅ λ _ h₆. from_guard _ _ _ h₆ λ quantity h₇.
          from_guard _ _ _ h₇ λ money h₈. from_guard _ _ _ h₈ λ policy h₉.
            from_bind _ _ h₉ λ plan₁ _ h₁₀. from_bind _ _ h₁₀ λ plan₂ _ h₁₁.
              subst (Reported proof b refs) (ok-injective h₁₁) (record {
                state = eq_of_not-ne _ _ state;
                owner = eq_of_not-ne _ _ (or-eq-false _ _ holders).0;
                custodian = eq_of_not-ne _ _ (or-eq-false _ _ holders).1;
                first = eq_of_not-ne _ _ (or-eq-false _ _ first).1;
                quantity = eqz→eq _ _ (not-eq-false _ quantity);
                money = money;
                policy = eq_of_not-ne _ _ policy;
                batch = refl;
              })
