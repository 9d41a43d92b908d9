-- ===== src/Step/Handoff.antt =====
-- OfferPickup, OfferDelivery, AcceptPickup and AcceptDelivery in `engine.apply` (domain.go).
use agro_chain.Base.{
  String, Bool, true, false, not, ◌&&◌, ◌||◌, List, [], ◌∷◌, ◌++◌, none, ◌==◌, ◌/=◌, if◌then◌else◌,
}
use agro_chain.Base.Int.{eqz}
use agro_chain.Codes.{
  Result, ok, invalid_state_transition, unauthorized_organization, invalid_quantity,
  transfer_already_exists, missing_evidence, source_binding_mismatch, invalid_money,
  transfer_not_found, wrong_transfer_recipient, ◌>>=◌, ◌>>◌, fail_if,
}
use agro_chain.Model.{
  Command, Batch, EvidenceRefs, HandoffInput, Transfer, created, pickup_pending, in_transport,
  delivery_pending, received,
}
use agro_chain.Model.Zero.{zero_handoff, zero_transfer}
use agro_chain.Platform.{Platform, key}
use agro_chain.Ledger.{Ledger, WritePlan, assign, put_value, load, absent}
use agro_chain.Step.{Execution, Verified, Outcome, valid_purchase}
use agro_chain.Step.Documents.{consume_documents}

-- `state, next, kind, to`
pub record Leg : Type 0 where
  pub state : String
  pub next : String
  pub kind : String
  pub to : String

-- The leg of an offer; `true` is a delivery.
unfoldable pub offer_leg : Bool → Batch → Leg
offer_leg false b = record {
  state = created;
  next = pickup_pending;
  kind = "PICKUP";
  to = b.logistics_msp;
}
offer_leg true b = record {
  state = in_transport;
  next = delivery_pending;
  kind = "DELIVERY";
  to = b.intended_retailer_msp;
}

-- `state, next, kind` of an acceptance, whose recipient is the actor.
unfoldable pub accept_leg : Bool → String → Leg
accept_leg false actor = record {
  state = pickup_pending;
  next = in_transport;
  kind = "PICKUP";
  to = actor;
}
accept_leg true actor = record {
  state = delivery_pending;
  next = received;
  kind = "DELIVERY";
  to = actor;
}

-- What the evidence of an offer adds: document uses, references, object ids.
pub record Papers : Type 0 where
  pub plan : WritePlan
  pub refs : EvidenceRefs
  pub ids : List String
  pub event_name : String

module _ (p : Platform) (s : Ledger) (c : Command) (x : Execution) where
  -- The handoff of the payload; an error of Unmarshal is ignored, as the payload was validated.
  unfoldable pub handoff : HandoffInput
  handoff = (p.handoff_input.unmarshal zero_handoff c.payload).0

  unfoldable pub pickup_papers : Verified → Batch → EvidenceRefs → Result Papers
  pickup_papers proof b refs = do
    fail_if (refs.cks_document_id == "") missing_evidence
    fail_if (not (eqz proof.quantity b.quantity_grams)) source_binding_mismatch
    fail_if (not (valid_purchase proof)) invalid_money
    plan ← consume_documents p s c (proof.purchase ∷ proof.hks ∷ proof.manifest ∷ []) []
    ok (record {
      plan = plan;
      refs = record refs {
        purchase_document_id = proof.purchase;
        hks_document_id = proof.hks;
        transport_document_id = proof.manifest;
      };
      ids = proof.purchase ∷ proof.hks ∷ proof.manifest ∷ [];
      event_name = "PickupOffered";
    })

  unfoldable pub delivery_papers : EvidenceRefs → Result Papers
  delivery_papers refs = do
    fail_if (refs.transport_document_id == "") missing_evidence
    ok (record { plan = []; refs = refs; ids = []; event_name = "DeliveryOffered" })

  unfoldable pub papers : Bool → Verified → Batch → EvidenceRefs → Result Papers
  papers false proof b refs = pickup_papers proof b refs
  papers true proof b refs = delivery_papers refs

  unfoldable pub offered : Batch → Leg → Transfer
  offered b leg = record {
    schema_version = "agrochain.custody-transfer.v1";
    transfer_id = handoff.transfer_id;
    batch_id = b.batch_id;
    kind = leg.kind;
    status = "OFFERED";
    from_msp = x.actor;
    to_msp = leg.to;
    quantity_grams = b.quantity_grams;
    offer_operation_id = c.operation_id;
    accept_operation_id = "";
    offered_tx_id = x.tx_id;
    accepted_tx_id = "";
  }

  unfoldable pub offer : Bool → Verified → Batch → EvidenceRefs → Result Outcome
  offer is_delivery proof b refs = do
    let leg = offer_leg is_delivery b
    fail_if (b.state /= leg.state) invalid_state_transition
    fail_if (x.actor /= b.custodian_msp || (not is_delivery && x.actor /= b.owner_msp))
        unauthorized_organization
    fail_if (not (eqz handoff.quantity_grams b.quantity_grams)) invalid_quantity
    absent s (key p "pendingTransfer" (b.batch_id ∷ [])) invalid_state_transition
    absent s (key p "transfer" (handoff.transfer_id ∷ [])) transfer_already_exists
    found ← papers is_delivery proof b refs
    plan₁ ←
        put_value p p.transfer (key p "transfer" (handoff.transfer_id ∷ [])) (offered b leg)
          found.plan
    plan₂ ← put_value p p.text (key p "pendingTransfer" (b.batch_id ∷ [])) handoff.transfer_id plan₁
    ok (record {
      batch = record b { state = leg.next };
      refs = found.refs;
      plan = plan₂;
      ids = c.batch_id ∷ (found.ids ++ handoff.transfer_id ∷ []);
      event_name = found.event_name;
    })

  -- The guards of an acceptance on the transfer that was loaded.
  unfoldable pub check_transfer : Bool → Bool → Transfer → Batch → Result (Unit {0})
  check_transfer is_delivery found t b = do
    fail_if (not found || t.batch_id /= b.batch_id) transfer_not_found
    fail_if (t.to_msp /= x.actor) wrong_transfer_recipient

  unfoldable pub check_accept : Bool → Transfer → String → Batch → EvidenceRefs → Result (Unit {0})
  check_accept is_delivery t pending b refs = do
    let leg = accept_leg is_delivery x.actor
    fail_if
        (b.state /= leg.state
          || t.status /= "OFFERED"
          || t.kind /= leg.kind
          || pending /= t.transfer_id)
        invalid_state_transition
    fail_if
        (not (eqz handoff.quantity_grams b.quantity_grams)
          || not (eqz t.quantity_grams b.quantity_grams))
        invalid_quantity
    fail_if (t.from_msp /= b.custodian_msp) unauthorized_organization
    fail_if (is_delivery && refs.freight_cost_id == "") missing_evidence

  unfoldable pub accepted : Transfer → Transfer
  accepted t = record t {
    status = "ACCEPTED";
    accept_operation_id = c.operation_id;
    accepted_tx_id = x.tx_id;
  }

  unfoldable pub moved : Bool → Batch → Batch
  moved is_delivery b = record b {
    state = (accept_leg is_delivery x.actor).next;
    custodian_msp = x.actor;
    owner_msp = if is_delivery then x.actor else b.owner_msp;
  }

  unfoldable pub accept : Bool → Batch → EvidenceRefs → Result Outcome
  accept is_delivery b refs = do
    loaded ← load p.transfer s (key p "transfer" (handoff.transfer_id ∷ [])) zero_transfer
    check_transfer is_delivery loaded.0 loaded.1 b
    pending ← load p.text s (key p "pendingTransfer" (b.batch_id ∷ [])) ""
    check_accept is_delivery loaded.1 pending.1 b refs
    plan ←
        put_value p p.transfer (key p "transfer" (loaded.1.transfer_id ∷ [])) (accepted loaded.1) []
    ok (record {
      batch = moved is_delivery b;
      refs = refs;
      plan = assign (key p "pendingTransfer" (b.batch_id ∷ [])) none plan;
      ids = c.batch_id ∷ handoff.transfer_id ∷ [];
      event_name = if is_delivery then "DeliveryAccepted" else "PickupAccepted";
    })
