-- ===== src/Engine/Lifecycle.antt =====
-- The state machine of docs/STATE_MACHINE.md, and what a command never changes.
use agro_chain.Base.{◌∙◌, arith, String, Bool, ◌≡◌, ◌⊎◌, refl, sym, subst, ap, true, false}
use agro_chain.Codes.{ok, err-ne-ok}
use agro_chain.Model.{
  Fn, Command, Batch, EvidenceRefs, created, pickup_pending, in_transport, delivery_pending,
  received, retail_reported, create_batch, offer_pickup, accept_pickup, record_freight_cost,
  offer_delivery, accept_delivery, report_retail_price, evaluate_price, open_review, resolve_review,
}
use agro_chain.Platform.{Platform}
use agro_chain.Ledger.{Ledger}
use agro_chain.Step.{Execution, Verified, Outcome}
use agro_chain.Step.Create.{new_batch}
use agro_chain.Step.Handoff.{offer_leg, accept_leg, moved}
use agro_chain.Step.Facts.{
  create-batch, analyse-batch, Offered, offer-Offered, Moved, accept-Moved, record_freight-Costed,
  Reported, report_retail-Reported,
}
use agro_chain.Engine.{is_create, run}

-- The states before and after a command; a batch that is absent has the state "".
abbrev pub Transition : Fn → String → String → Type 0
Transition create_batch old new = (old ≡ "") × (new ≡ created)
Transition offer_pickup old new = (old ≡ created) × (new ≡ pickup_pending)
Transition accept_pickup old new = (old ≡ pickup_pending) × (new ≡ in_transport)
Transition record_freight_cost old new =
    ((old ≡ in_transport) ⊎ (old ≡ delivery_pending)) × (new ≡ old)
Transition offer_delivery old new = (old ≡ in_transport) × (new ≡ delivery_pending)
Transition accept_delivery old new = (old ≡ delivery_pending) × (new ≡ received)
Transition report_retail_price old new = (old ≡ received) × (new ≡ retail_reported)
Transition evaluate_price old new = new ≡ old
Transition open_review old new = new ≡ old
Transition resolve_review old new = new ≡ old
Transition _ old new = ⊥

-- What no command changes after the creation, and what only the common end of `apply` does.
pub record SameIdentity (a b : Batch) : Type 0 where
  pub schema_version : b.schema_version ≡ a.schema_version
  pub batch_id : b.batch_id ≡ a.batch_id
  pub product_code : b.product_code ≡ a.product_code
  pub grade_code : b.grade_code ≡ a.grade_code
  pub quantity_grams : b.quantity_grams ≡ a.quantity_grams
  pub origin_region_code : b.origin_region_code ≡ a.origin_region_code
  pub harvest_date : b.harvest_date ≡ a.harvest_date
  pub producer_msp : b.producer_msp ≡ a.producer_msp
  pub logistics_msp : b.logistics_msp ≡ a.logistics_msp
  pub intended_retailer_msp : b.intended_retailer_msp ≡ a.intended_retailer_msp
  pub created_tx_id : b.created_tx_id ≡ a.created_tx_id

pub SameIdentity-refl : (b : Batch) → SameIdentity b b
SameIdentity-refl b = record {
  schema_version = refl;
  batch_id = refl;
  product_code = refl;
  grade_code = refl;
  quantity_grams = refl;
  origin_region_code = refl;
  harvest_date = refl;
  producer_msp = refl;
  logistics_msp = refl;
  intended_retailer_msp = refl;
  created_tx_id = refl;
}

pub SameIdentity-trans : (a b c : Batch) → SameIdentity a b → SameIdentity b c → SameIdentity a c
SameIdentity-trans a b c h k = record {
  schema_version = k.schema_version ∙ h.schema_version;
  batch_id = k.batch_id ∙ h.batch_id;
  product_code = k.product_code ∙ h.product_code;
  grade_code = k.grade_code ∙ h.grade_code;
  quantity_grams = k.quantity_grams ∙ h.quantity_grams;
  origin_region_code = k.origin_region_code ∙ h.origin_region_code;
  harvest_date = k.harvest_date ∙ h.harvest_date;
  producer_msp = k.producer_msp ∙ h.producer_msp;
  logistics_msp = k.logistics_msp ∙ h.logistics_msp;
  intended_retailer_msp = k.intended_retailer_msp ∙ h.intended_retailer_msp;
  created_tx_id = k.created_tx_id ∙ h.created_tx_id;
}

module _ (p : Platform) (s : Ledger) (c : Command) (x : Execution) where
  Offered-Transition :
      (is_delivery : Bool) (b : Batch) (o : Outcome)
      → Offered p s c x is_delivery b o
      → (b.state ≡ (offer_leg is_delivery b).state)
        × (o.batch.state ≡ (offer_leg is_delivery b).next)
  Offered-Transition is_delivery b o f = (f.state, ap (λ (r : Batch). r.state) f.batch)

  -- A command moves the state only along the edges of the lifecycle.
  pub run-Transition :
      (fn : Fn) (proof : Verified) (b : Batch) (refs : EvidenceRefs) (o : Outcome)
      → (is_create fn ≡ true → b.state ≡ "")
      → run p s fn c x proof b refs ≡ ok o
      → Transition fn b.state o.batch.state
  unfolding run is_create offer_leg accept_leg moved new_batch
  run-Transition create_batch proof b refs o new h =
      (new refl, ap (λ (r : Batch). r.state) (create-batch p s c x proof refs o h).0)
  run-Transition offer_pickup proof b refs o new h =
      Offered-Transition false b o (offer-Offered p s c x false proof b refs o h)
  run-Transition offer_delivery proof b refs o new h =
      Offered-Transition true b o (offer-Offered p s c x true proof b refs o h)
  run-Transition accept_pickup proof b refs o new h =
      let f = accept-Moved p s c x false b refs o h in
      (f.state, ap (λ (r : Batch). r.state) f.batch)
  run-Transition accept_delivery proof b refs o new h =
      let f = accept-Moved p s c x true b refs o h in (f.state, ap (λ (r : Batch). r.state) f.batch)
  run-Transition record_freight_cost proof b refs o new h =
      let f = record_freight-Costed p s c x proof b refs o h in
      (f.state, ap (λ (r : Batch). r.state) f.batch)
  run-Transition report_retail_price proof b refs o new h =
      let f = report_retail-Reported p s c x proof b refs o h in
      (f.state, ap (λ (r : Batch). r.state) f.batch)
  run-Transition evaluate_price proof b refs o new h =
      sym (ap (λ (r : Batch). r.state) (analyse-batch p s c x proof true b refs o h))
  run-Transition open_review proof b refs o new h =
      sym (ap (λ (r : Batch). r.state) (analyse-batch p s c x proof false b refs o h))
  run-Transition resolve_review proof b refs o new h =
      sym (ap (λ (r : Batch). r.state) (analyse-batch p s c x proof false b refs o h))
  run-Transition _ proof b refs o new h = err-ne-ok h

  Offered-SameIdentity :
      (is_delivery : Bool) (b : Batch) (o : Outcome)
      → Offered p s c x is_delivery b o
      → SameIdentity b o.batch
  Offered-SameIdentity is_delivery b o f = subst (SameIdentity b) (sym f.batch) (record {
    schema_version = refl;
    batch_id = refl;
    product_code = refl;
    grade_code = refl;
    quantity_grams = refl;
    origin_region_code = refl;
    harvest_date = refl;
    producer_msp = refl;
    logistics_msp = refl;
    intended_retailer_msp = refl;
    created_tx_id = refl;
  })

  Moved-SameIdentity :
      (is_delivery : Bool) (b : Batch) (refs : EvidenceRefs) (o : Outcome)
      → Moved p s c x is_delivery b refs o
      → SameIdentity b o.batch
  unfolding moved
  Moved-SameIdentity is_delivery b refs o f = subst (SameIdentity b) (sym f.batch) (record {
    schema_version = refl;
    batch_id = refl;
    product_code = refl;
    grade_code = refl;
    quantity_grams = refl;
    origin_region_code = refl;
    harvest_date = refl;
    producer_msp = refl;
    logistics_msp = refl;
    intended_retailer_msp = refl;
    created_tx_id = refl;
  })

  Reported-SameIdentity :
      (proof : Verified) (b : Batch) (refs : EvidenceRefs) (o : Outcome)
      → Reported p s c x proof b refs o
      → SameIdentity b o.batch
  Reported-SameIdentity proof b refs o f = subst (SameIdentity b) (sym f.batch) (record {
    schema_version = refl;
    batch_id = refl;
    product_code = refl;
    grade_code = refl;
    quantity_grams = refl;
    origin_region_code = refl;
    harvest_date = refl;
    producer_msp = refl;
    logistics_msp = refl;
    intended_retailer_msp = refl;
    created_tx_id = refl;
  })

  -- After the creation no command changes the quantity, the product, the route or the origin.
  pub run-SameIdentity :
      (fn : Fn) (proof : Verified) (b : Batch) (refs : EvidenceRefs) (o : Outcome)
      → is_create fn ≡ false
      → run p s fn c x proof b refs ≡ ok o
      → SameIdentity b o.batch
  unfolding run is_create
  run-SameIdentity create_batch proof b refs o new h = ground arith
  run-SameIdentity offer_pickup proof b refs o new h =
      Offered-SameIdentity false b o (offer-Offered p s c x false proof b refs o h)
  run-SameIdentity offer_delivery proof b refs o new h =
      Offered-SameIdentity true b o (offer-Offered p s c x true proof b refs o h)
  run-SameIdentity accept_pickup proof b refs o new h =
      Moved-SameIdentity false b refs o (accept-Moved p s c x false b refs o h)
  run-SameIdentity accept_delivery proof b refs o new h =
      Moved-SameIdentity true b refs o (accept-Moved p s c x true b refs o h)
  run-SameIdentity record_freight_cost proof b refs o new h =
      subst (SameIdentity b) (sym (record_freight-Costed p s c x proof b refs o h).batch)
        (SameIdentity-refl b)
  run-SameIdentity report_retail_price proof b refs o new h =
      Reported-SameIdentity proof b refs o (report_retail-Reported p s c x proof b refs o h)
  run-SameIdentity evaluate_price proof b refs o new h =
      subst (SameIdentity b) (analyse-batch p s c x proof true b refs o h) (SameIdentity-refl b)
  run-SameIdentity open_review proof b refs o new h =
      subst (SameIdentity b) (analyse-batch p s c x proof false b refs o h) (SameIdentity-refl b)
  run-SameIdentity resolve_review proof b refs o new h =
      subst (SameIdentity b) (analyse-batch p s c x proof false b refs o h) (SameIdentity-refl b)
  run-SameIdentity _ proof b refs o new h = absurd (err-ne-ok h)
