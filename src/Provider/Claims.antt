-- ===== src/Provider/Claims.antt =====
-- What each document type claims (the inner `switch` of `prepare` in private.go).
use agro_chain.Base.{String, not, ◌||◌, [], ◌∷◌, ◌==◌, ◌/=◌, if◌then◌else◌}
use agro_chain.Base.Int.{eqz}
use agro_chain.Codes.{
  Result, ok, source_claim_rejected, source_binding_mismatch, ◌>>=◌, ◌>>◌, fail_if,
}
use agro_chain.Text.Decimal.{valid_date_time}
use agro_chain.Model.{Command, Batch}
use agro_chain.Model.Zero.{zero_create, zero_freight}
use agro_chain.Model.Evidence.{Bundle, FreightBody, CostRecord, Opening}
use agro_chain.Platform.{Platform, key}
use agro_chain.Step.{Execution, Verified}
use agro_chain.Evidence.{trade, freight, exact}
use agro_chain.Evidence.Types.{
  eligibility_type, purchase_type, notification_type, manifest_type, freight_type,
}
use agro_chain.Provider.{Transient, media, add_private, read_salt}

abbrev opening_of : Bundle → Opening
opening_of d = record { body = d.body; salt = d.salt }

module _ (p : Platform) (c : Command) (x : Execution) (b : Batch) (d : Bundle) where
  unfoldable pub eligibility_claim : Verified → Result Verified
  eligibility_claim v = do
    body ← exact p (eligibility_type p) d.body
    let i = (p.create_input.unmarshal zero_create c.payload).0
    fail_if (not body.eligible) source_claim_rejected
    fail_if
        (body.producer /= x.actor
          || body.product /= i.product_code
          || body.grade /= i.grade_code
          || not (eqz body.quantity i.quantity_grams)
          || body.region /= i.origin_region_code
          || body.harvest /= i.harvest_date)
        source_binding_mismatch
    ok (record v { cks = d.envelope.header.document_id; quantity = body.quantity })

  unfoldable pub purchase_claim : Verified → Result Verified
  purchase_claim v = do
    body ← exact p (purchase_type p) d.body
    fail_if
        (body.seller /= b.producer_msp
          || body.buyer /= b.intended_retailer_msp
          || not (media body.digest body.media_type))
        source_binding_mismatch
    add_private p p.opening trade (key p "documentOpening" (d.envelope.header.document_id ∷ []))
        (opening_of d)
        (record v {
          purchase = d.envelope.header.document_id;
          quantity = body.quantity;
          purchase_price = body.price;
          purchase_total = body.total;
          currency = body.currency;
          tax_basis = body.tax;
        })

  unfoldable pub notification_claim : Verified → Result Verified
  notification_claim v = do
    body ← exact p (notification_type p) d.body
    fail_if (not body.notified) source_claim_rejected
    fail_if
        (body.producer /= b.producer_msp
          || body.retailer /= b.intended_retailer_msp
          || body.product /= b.product_code
          || not (eqz body.quantity b.quantity_grams))
        source_binding_mismatch
    ok (record v { hks = d.envelope.header.document_id })

  unfoldable pub manifest_claim : Verified → Result Verified
  manifest_claim v = do
    body ← exact p (manifest_type p) d.body
    fail_if
        (body.carrier /= b.logistics_msp
          || body.consignor /= b.producer_msp
          || body.consignee /= b.intended_retailer_msp
          || body.product /= b.product_code
          || not (eqz body.quantity b.quantity_grams)
          || not (valid_date_time body.departure))
        source_binding_mismatch
    ok (record v { manifest = d.envelope.header.document_id })

  unfoldable pub cost_of : FreightBody → String → CostRecord
  cost_of body salt = record {
    schema_version = "agrochain.cost.v1";
    cost_id = (p.freight_input.unmarshal zero_freight c.payload).0.cost_id;
    batch_id = c.batch_id;
    kind = "FREIGHT";
    payer = body.payer;
    payee = body.carrier;
    quantity = body.quantity;
    total = body.total;
    currency = body.currency;
    tax = body.tax;
    source_document_id = d.envelope.header.document_id;
    salt = salt;
    operation_id = c.operation_id;
    tx_id = x.tx_id;
  }

  unfoldable pub freight_claim : Transient → Verified → Result Verified
  freight_claim t v = do
    body ← exact p (freight_type p) d.body
    fail_if
        (body.carrier /= b.logistics_msp
          || body.payer /= b.intended_retailer_msp
          || not (media body.digest body.media_type))
        source_binding_mismatch
    salt ← read_salt p t "recordSaltHex"
    costed ←
        add_private p p.cost_record freight (key p "cost" ((cost_of body salt).cost_id ∷ []))
          (cost_of body salt)
          (record v {
            quantity = body.quantity;
            freight_total = body.total;
            currency = body.currency;
            tax_basis = body.tax;
          })
    add_private p p.opening freight (key p "documentOpening" (d.envelope.header.document_id ∷ []))
        (opening_of d) costed

  unfoldable pub claim : Transient → Verified → Result Verified
  claim t v =
      let type = d.envelope.header.document_type in
      if type == "PRODUCER_ELIGIBILITY"
      then eligibility_claim v
      else if type == "PURCHASE_INVOICE"
      then purchase_claim v
      else if type == "TRADE_NOTIFICATION"
      then notification_claim v
      else if type == "TRANSPORT_MANIFEST"
      then manifest_claim v
      else if type == "FREIGHT_INVOICE"
      then freight_claim t v
      else ok v
