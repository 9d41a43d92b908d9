-- ===== src/Evidence/Types.antt =====
-- The struct types that `exact` decodes, with the JSON tags of their fields.
use agro_chain.Base.{[], ◌∷◌}
use agro_chain.Model.{SourceKey, Configuration}
use agro_chain.Model.Evidence.{
  Header, Envelope, Bundle, Opening, Eligibility, PurchaseBody, Notification, Manifest, FreightBody,
  RetailInput,
}
use agro_chain.Model.Evidence.Zero.{
  zero_source_key, zero_header, zero_envelope, zero_bundle, zero_opening, zero_eligibility,
  zero_purchase_body, zero_notification, zero_manifest, zero_freight_body, zero_retail_input,
  zero_score,
}
use agro_chain.Model.Zero.{zero_configuration}
use agro_chain.Score.{Score}
use agro_chain.Platform.{Platform}
use agro_chain.Evidence.{Tagged}

module _ (p : Platform) where
  abbrev pub source_key_type : Tagged SourceKey
  source_key_type = record {
    codec = p.source_key;
    zero_value = zero_source_key;
    tags =
        "schemaVersion" ∷ "issuerId" ∷ "sourceSystem" ∷ "documentTypes" ∷ "keyId"
        ∷ "publicKeyRawBase64url" ∷ "enabled" ∷ [];
  }

  abbrev pub configuration_type : Tagged Configuration
  configuration_type = record {
    codec = p.configuration;
    zero_value = zero_configuration;
    tags = "schemaVersion" ∷ "policyId" ∷ "thresholdBps" ∷ "sources" ∷ [];
  }

  abbrev pub header_type : Tagged Header
  header_type = record {
    codec = p.header;
    zero_value = zero_header;
    tags =
        "schemaVersion" ∷ "documentId" ∷ "sourceSystem" ∷ "sourceMode" ∷ "issuerId" ∷ "keyId"
        ∷ "sourceDocumentId" ∷ "documentType" ∷ "batchId" ∷ "boundOperationId" ∷ "issuedAt"
        ∷ "nonce" ∷ "commitmentAlgorithm" ∷ "commitment" ∷ "signatureAlgorithm" ∷ [];
  }

  abbrev pub envelope_type : Tagged Envelope
  envelope_type = record {
    codec = p.envelope;
    zero_value = zero_envelope;
    tags = "header" ∷ "signature" ∷ [];
  }

  abbrev pub bundle_type : Tagged Bundle
  bundle_type = record {
    codec = p.bundle;
    zero_value = zero_bundle;
    tags = "envelope" ∷ "body" ∷ "saltHex" ∷ [];
  }

  abbrev pub opening_type : Tagged Opening
  opening_type = record {
    codec = p.opening;
    zero_value = zero_opening;
    tags = "body" ∷ "saltHex" ∷ [];
  }

  abbrev pub eligibility_type : Tagged Eligibility
  eligibility_type = record {
    codec = p.eligibility;
    zero_value = zero_eligibility;
    tags =
        "producerMsp" ∷ "productCode" ∷ "gradeCode" ∷ "quantityGrams" ∷ "originRegionCode"
        ∷ "harvestDate" ∷ "eligible" ∷ [];
  }

  abbrev pub purchase_type : Tagged PurchaseBody
  purchase_type = record {
    codec = p.purchase_body;
    zero_value = zero_purchase_body;
    tags =
        "sellerMsp" ∷ "buyerMsp" ∷ "quantityGrams" ∷ "priceKurusPerKg" ∷ "totalKurus" ∷ "currency"
        ∷ "taxBasis" ∷ "attachmentDigest" ∷ "attachmentMediaType" ∷ [];
  }

  abbrev pub notification_type : Tagged Notification
  notification_type = record {
    codec = p.notification;
    zero_value = zero_notification;
    tags = "producerMsp" ∷ "retailerMsp" ∷ "productCode" ∷ "quantityGrams" ∷ "notified" ∷ [];
  }

  abbrev pub manifest_type : Tagged Manifest
  manifest_type = record {
    codec = p.manifest;
    zero_value = zero_manifest;
    tags =
        "carrierMsp" ∷ "consignorMsp" ∷ "consigneeMsp" ∷ "productCode" ∷ "quantityGrams"
        ∷ "declaredDepartureAt" ∷ [];
  }

  abbrev pub freight_type : Tagged FreightBody
  freight_type = record {
    codec = p.freight_body;
    zero_value = zero_freight_body;
    tags =
        "carrierMsp" ∷ "payerMsp" ∷ "quantityGrams" ∷ "totalKurus" ∷ "currency" ∷ "taxBasis"
        ∷ "attachmentDigest" ∷ "attachmentMediaType" ∷ [];
  }

  abbrev pub retail_input_type : Tagged RetailInput
  retail_input_type = record {
    codec = p.retail_input;
    zero_value = zero_retail_input;
    tags = "offeredPriceKurusPerKg" ∷ "currency" ∷ "taxBasis" ∷ "reportedAt" ∷ "recordSaltHex" ∷ [];
  }

  abbrev pub score_type : Tagged Score
  score_type = record {
    codec = p.score;
    zero_value = zero_score;
    tags = "increaseBps" ∷ "classification" ∷ "reasonCode" ∷ [];
  }
