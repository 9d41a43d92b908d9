-- ===== src/Engine/Custody.antt =====
-- The rules on a stored batch, and the commands of `engine.apply`: who owns and who holds it in each
-- state, the route, the quantity and the retail lot.
use agro_chain.Base.{
  String, Bool, true, false, not, ◌||◌, ◌≡◌, ◌∙◌, refl, sym, subst, ap, arith, ◌==◌, eq_iff,
  if◌then◌else◌, inl, inr, Bool-cases,
}
use agro_chain.Codes.{ok, err-ne-ok}
use agro_chain.Text.{valid_id, valid_state}
use agro_chain.Model.{
  Fn, Command, Batch, EvidenceRefs, producer_msp, logistics_msp, retailer_msp, created,
  pickup_pending, in_transport, delivery_pending, received, retail_reported, create_batch,
  offer_pickup, accept_pickup, record_freight_cost, offer_delivery, accept_delivery,
  report_retail_price, evaluate_price, open_review, resolve_review,
}
use agro_chain.Model.Zero.{zero_create}
use agro_chain.Platform.{Platform}
use agro_chain.Ledger.{Ledger}
use agro_chain.Auth.{expected, authorize}
use agro_chain.Auth.Matrix.{authorize_command}
use agro_chain.Payload.{bad_quantity, validate}
use agro_chain.Payload.Bounds.{IsCreate, IsReport, validate-IsCreate, validate-IsReport}
use agro_chain.Step.{Execution, Verified, Outcome}
use agro_chain.Step.Create.{new_batch}
use agro_chain.Step.Handoff.{offer_leg, accept_leg, moved}
use agro_chain.Step.Retail.{report}
use agro_chain.Step.Facts.{
  create-batch, analyse-batch, Offered, offer-Offered, Moved, accept-Moved, record_freight-Costed,
  Reported, report_retail-Reported,
}
use agro_chain.Engine.{is_create, run}

-- Logistics is never the owner.
unfoldable pub owner_of : String → String
owner_of state =
    if state == received || state == retail_reported then retailer_msp else producer_msp

unfoldable pub custodian_of : String → String
custodian_of state =
    if state == created || state == pickup_pending
    then producer_msp
    else if state == in_transport || state == delivery_pending
    then logistics_msp
    else retailer_msp

pub record WellFormed (b : Batch) : Type 0 where
  pub state : valid_state b.state ≡ true
  pub owner : b.owner_msp ≡ owner_of b.state
  pub custodian : b.custodian_msp ≡ custodian_of b.state
  pub producer : b.producer_msp ≡ producer_msp
  pub logistics : b.logistics_msp ≡ logistics_msp
  pub retailer : b.intended_retailer_msp ≡ retailer_msp
  pub quantity : bad_quantity b.quantity_grams ≡ false
  pub lot : (b.retail_lot_id == "") ≡ not (b.state == retail_reported)

actor_of :
    (a r : String) (fn : Fn)
    → ((expected fn).0 == "") ≡ false
    → authorize a r fn ≡ ok tt
    → a ≡ (expected fn).0
actor_of a r fn h ok' = ((authorize_command a r fn h).0 ok').0

lot_named : (s : String) → valid_id s "LOT" ≡ true → (s == "") ≡ false
unfolding valid_id
lot_named s h = elim (Bool-cases (s == "")) [
  | inl e ↦
      let bad : valid_id "" "LOT" ≡ true =
        subst (λ t. valid_id t "LOT" ≡ true) ((eq_iff s "").0 e) h in
      ground arith
  | inr e ↦ e
]

module _ (p : Platform) (s : Ledger) (c : Command) (x : Execution) where
  Offered-WellFormed :
      (is_delivery : Bool) (b : Batch) (o : Outcome)
      → WellFormed b
      → Offered p s c x is_delivery b o
      → WellFormed o.batch
  unfolding offer_leg owner_of custodian_of valid_state
  Offered-WellFormed false b o w f = subst WellFormed (sym f.batch) (record {
    state = refl;
    owner = w.owner ∙ ap owner_of f.state;
    custodian = w.custodian ∙ ap custodian_of f.state;
    producer = w.producer;
    logistics = w.logistics;
    retailer = w.retailer;
    quantity = w.quantity;
    lot = w.lot ∙ ap (λ t. not (t == retail_reported)) f.state;
  })
  Offered-WellFormed true b o w f = subst WellFormed (sym f.batch) (record {
    state = refl;
    owner = w.owner ∙ ap owner_of f.state;
    custodian = w.custodian ∙ ap custodian_of f.state;
    producer = w.producer;
    logistics = w.logistics;
    retailer = w.retailer;
    quantity = w.quantity;
    lot = w.lot ∙ ap (λ t. not (t == retail_reported)) f.state;
  })

  Moved-WellFormed :
      (is_delivery : Bool) (b : Batch) (refs : EvidenceRefs) (o : Outcome)
      → x.actor ≡ (if is_delivery then retailer_msp else logistics_msp)
      → WellFormed b
      → Moved p s c x is_delivery b refs o
      → WellFormed o.batch
  unfolding accept_leg moved owner_of custodian_of valid_state
  Moved-WellFormed false b refs o a w f = subst WellFormed (sym f.batch) (record {
    state = refl;
    owner = w.owner ∙ ap owner_of f.state;
    custodian = a;
    producer = w.producer;
    logistics = w.logistics;
    retailer = w.retailer;
    quantity = w.quantity;
    lot = w.lot ∙ ap (λ t. not (t == retail_reported)) f.state;
  })
  Moved-WellFormed true b refs o a w f = subst WellFormed (sym f.batch) (record {
    state = refl;
    owner = a;
    custodian = a;
    producer = w.producer;
    logistics = w.logistics;
    retailer = w.retailer;
    quantity = w.quantity;
    lot = w.lot ∙ ap (λ t. not (t == retail_reported)) f.state;
  })

  Reported-WellFormed :
      (proof : Verified) (b : Batch) (refs : EvidenceRefs) (o : Outcome)
      → IsReport (report p s c x proof)
      → WellFormed b
      → Reported p s c x proof b refs o
      → WellFormed o.batch
  unfolding owner_of custodian_of valid_state
  Reported-WellFormed proof b refs o i w f = subst WellFormed (sym f.batch) (record {
    state = refl;
    owner = w.owner ∙ ap owner_of f.state;
    custodian = w.custodian ∙ ap custodian_of f.state;
    producer = w.producer;
    logistics = w.logistics;
    retailer = w.retailer;
    quantity = w.quantity;
    lot = lot_named _ i.lot;
  })

  new-WellFormed :
      x.actor ≡ producer_msp
      → IsCreate (p.create_input.unmarshal zero_create c.payload).0
      → WellFormed (new_batch c x (p.create_input.unmarshal zero_create c.payload).0)
  unfolding new_batch owner_of custodian_of valid_state
  new-WellFormed a i = record {
    state = refl;
    owner = a;
    custodian = a;
    producer = a;
    logistics = i.logistics;
    retailer = i.retailer;
    quantity = i.quantity;
    lot = refl;
  }

  -- An authorised command with a valid payload leaves a batch that obeys the rules, if the batch before
  -- did. CreateBatch needs no batch before.
  pub run-WellFormed :
      (fn : Fn) (proof : Verified) (b : Batch) (refs : EvidenceRefs) (o : Outcome)
      → authorize x.actor x.role fn ≡ ok tt
      → validate p fn c.payload ≡ ok tt
      → (is_create fn ≡ false → WellFormed b)
      → run p s fn c x proof b refs ≡ ok o
      → WellFormed o.batch
  unfolding run is_create expected
  run-WellFormed create_batch proof b refs o a v w h =
      subst WellFormed (sym (create-batch p s c x proof refs o h).0)
        (new-WellFormed (actor_of _ _ create_batch refl a) (validate-IsCreate p c.payload v))
  run-WellFormed offer_pickup proof b refs o a v w h =
      Offered-WellFormed false b o (w refl) (offer-Offered p s c x false proof b refs o h)
  run-WellFormed offer_delivery proof b refs o a v w h =
      Offered-WellFormed true b o (w refl) (offer-Offered p s c x true proof b refs o h)
  run-WellFormed accept_pickup proof b refs o a v w h =
      Moved-WellFormed false b refs o (actor_of _ _ accept_pickup refl a) (w refl)
        (accept-Moved p s c x false b refs o h)
  run-WellFormed accept_delivery proof b refs o a v w h =
      Moved-WellFormed true b refs o (actor_of _ _ accept_delivery refl a) (w refl)
        (accept-Moved p s c x true b refs o h)
  run-WellFormed record_freight_cost proof b refs o a v w h =
      subst WellFormed (sym (record_freight-Costed p s c x proof b refs o h).batch) (w refl)
  run-WellFormed report_retail_price proof b refs o a v w h =
      Reported-WellFormed proof b refs o (unfold report in validate-IsReport p c.payload v) (w refl)
        (report_retail-Reported p s c x proof b refs o h)
  run-WellFormed evaluate_price proof b refs o a v w h =
      subst WellFormed (analyse-batch p s c x proof true b refs o h) (w refl)
  run-WellFormed open_review proof b refs o a v w h =
      subst WellFormed (analyse-batch p s c x proof false b refs o h) (w refl)
  run-WellFormed resolve_review proof b refs o a v w h =
      subst WellFormed (analyse-batch p s c x proof false b refs o h) (w refl)
  run-WellFormed _ proof b refs o a v w h = absurd (err-ne-ok h)
