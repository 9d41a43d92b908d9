-- ===== src/Examples/Data.antt =====
-- The commands, the payloads, the records and the token streams of the examples.
use agro_chain.Base.{String, [], ◌∷◌}
use agro_chain.Base.Int.{pos}
use agro_chain.Model.{
  Page, PageInput, Receipt, TxTime, Command, Batch, EvidenceRefs, CreateInput, HandoffInput,
  create_batch, offer_delivery, producer_msp, logistics_msp, retailer_msp, in_transport,
}
use agro_chain.Json.{
  end, num, str, field, obj, Value, Stream, eof, tok, open_object, close_object, text, number,
}

abbrev pub now : TxTime
now = record { seconds = "1700000000"; nanos = pos 0 }

abbrev pub tx : String
tx = "0000000000000000000000000000000000000000000000000000000000000000"

abbrev pub create_command : Command
create_command = record {
  schema_version = "agrochain.command.v1";
  operation_id = "OP-00000001";
  batch_id = "BAT-00000001";
  expected_version = pos 0;
  command = create_batch;
  payload = 1 ∷ [];
}

abbrev pub delivery_command : Command
delivery_command = record {
  schema_version = "agrochain.command.v1";
  operation_id = "OP-00000002";
  batch_id = "BAT-00000001";
  expected_version = pos 4;
  command = offer_delivery;
  payload = 2 ∷ [];
}

abbrev pub created_receipt : Receipt
created_receipt = record {
  schema_version = "agrochain.receipt.v1";
  operation_id = "OP-00000001";
  batch_id = "BAT-00000001";
  command = create_batch;
  actor_msp = producer_msp;
  tx_id = tx;
  tx_time = now;
  result_version = pos 1;
  object_ids = "BAT-00000001" ∷ "DOC-00000001" ∷ [];
}

abbrev pub create_input : CreateInput
create_input = record {
  product_code = "TOMATO";
  grade_code = "STANDARD";
  quantity_grams = pos 500000;
  origin_region_code = "07";
  harvest_date = "2024-02-29";
  logistics_msp = logistics_msp;
  intended_retailer_msp = retailer_msp;
}

abbrev pub handoff_input : HandoffInput
handoff_input = record { transfer_id = "TRF-00000002"; quantity_grams = pos 500000 }

-- The batch that is in transport.
abbrev pub carried : Batch
carried = record {
  schema_version = "agrochain.batch.v1";
  batch_id = "BAT-00000001";
  product_code = "TOMATO";
  grade_code = "STANDARD";
  quantity_grams = pos 500000;
  origin_region_code = "07";
  harvest_date = "2024-02-29";
  producer_msp = producer_msp;
  logistics_msp = logistics_msp;
  intended_retailer_msp = retailer_msp;
  owner_msp = producer_msp;
  custodian_msp = logistics_msp;
  state = in_transport;
  version = pos 4;
  retail_lot_id = "";
  created_tx_id = tx;
  updated_tx_id = tx;
  tx_time = now;
}

abbrev pub carried_refs : EvidenceRefs
carried_refs = record {
  schema_version = "agrochain.batch-evidence.v1";
  batch_id = "BAT-00000001";
  cks_document_id = "DOC-00000001";
  purchase_document_id = "DOC-00000002";
  hks_document_id = "DOC-00000003";
  transport_document_id = "DOC-00000004";
  freight_cost_id = "";
  retail_report_id = "";
}

abbrev pub create_tokens : Stream
create_tokens = tok open_object (
    tok (text "productCode") (
      tok (text "TOMATO") (
        tok (text "gradeCode") (
          tok (text "STANDARD") (
            tok (text "quantityGrams") (
              tok (number "500000") (
                tok (text "originRegionCode") (
                  tok (text "07") (
                    tok (text "harvestDate") (
                      tok (text "2024-02-29") (
                        tok (text "logisticsMsp") (
                          tok (text "LogisticsMSP") (
                            tok (text "intendedRetailerMsp")
                              (tok (text "RetailerMSP") (tok close_object eof)))))))))))))))

abbrev pub handoff_tokens : Stream
handoff_tokens = tok open_object (
    tok (text "transferId") (
      tok (text "TRF-00000002")
        (tok (text "quantityGrams") (tok (number "500000") (tok close_object eof)))))

abbrev pub command_tokens : Stream
command_tokens = tok open_object (
    tok (text "schemaVersion") (
      tok (text "agrochain.command.v1") (
        tok (text "operationId") (
          tok (text "OP-00000002") (
            tok (text "batchId") (
              tok (text "BAT-00000001") (
                tok (text "expectedVersion") (
                  tok (number "4") (
                    tok (text "command") (
                      tok (text "OfferDelivery") (
                        tok (text "payload") (
                          tok open_object (
                            tok (text "transferId") (
                              tok (text "TRF-00000002")
                                (tok close_object (tok close_object eof))))))))))))))))

abbrev pub page_tokens : Stream
page_tokens = tok open_object (
    tok (text "schemaVersion") (
      tok (text "agrochain.page-request.v1") (
        tok (text "filter") (
          tok (text "IN_TRANSPORT") (
            tok (text "pageSize") (
              tok (number "10") (tok (text "bookmark") (tok (text "") (tok close_object eof)))))))))

abbrev pub page_input : PageInput
page_input = record {
  schema_version = "agrochain.page-request.v1";
  filter = "IN_TRANSPORT";
  page_size = pos 10;
  bookmark = "";
}

abbrev pub delivery_receipt : Receipt
delivery_receipt = record {
  schema_version = "agrochain.receipt.v1";
  operation_id = "OP-00000002";
  batch_id = "BAT-00000001";
  command = offer_delivery;
  actor_msp = logistics_msp;
  tx_id = tx;
  tx_time = now;
  result_version = pos 5;
  object_ids = "BAT-00000001" ∷ "TRF-00000002" ∷ [];
}

abbrev pub handoff_document : Value
handoff_document =
    obj (field "transferId" (str "TRF-00000002") (field "quantityGrams" (num "500000") end))

abbrev pub answered_page : Page
answered_page = record {
  schema_version = "agrochain.page.v1";
  records = (123 ∷ []) ∷ [];
  bookmark = "";
}
