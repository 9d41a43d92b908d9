-- ===== src/Examples/World.antt =====
-- The platform and the ledgers of the examples: a CreateBatch that meets an empty ledger, and an
-- OfferDelivery of a batch in transport.
use agro_chain.Contract.{Timestamp}
use agro_chain.Base.{
  codes, List, subst, String, true, false, [], ◌∷◌, none, some, eqb, ◌==◌, if◌then◌else◌, ◌≡◌, refl,
  arith,
}
use agro_chain.Base.Int.{ℤ, pos}
use agro_chain.Codes.{◌>>=◌, ok-injective, Result, ok}
use agro_chain.Model.{Event, Bytes, Command, Batch, EvidenceRefs, producer_msp, logistics_msp}
use agro_chain.Json.{null, Stream, eof}
use agro_chain.Platform.{Platform, Codec, canonical, or_fail, key}
use agro_chain.Ledger.{WritePlan, Ledger, planned}
use agro_chain.Step.{Execution, Verified}
use agro_chain.Engine.Written.{KeyLaw, Respects}
use agro_chain.Engine.Replay.{ReceiptLaw}
use agro_chain.Examples.Keys.{escaped_key, escaped_key-injective}
use agro_chain.Examples.Data.{
  now, tx, delivery_command, created_receipt, create_input, handoff_input, carried, carried_refs,
  create_tokens, handoff_tokens, command_tokens, page_tokens, page_input,
}

-- A codec that prints one byte and reads what it is given.
abbrev pub constant : {A : Type 0} → A → Codec A
constant a = record { marshal = λ v. some (123 ∷ []); unmarshal = λ dst b. (a, true) }

abbrev pub plain : {A : Type 0} → Codec A
plain = record { marshal = λ v. some (123 ∷ []); unmarshal = λ dst b. (dst, true) }

-- The documents are named by one byte: 1 and 2 are payloads, 3 is a command, `p` asks for a page.
abbrev tokens_of_document : Bytes → Stream
tokens_of_document raw = elim raw [
  | [] ↦ eof
  | c ∷ cs ↦
      if eqb c 1
      then create_tokens
      else if eqb c 2
      then handoff_tokens
      else if eqb c b'p'
      then page_tokens
      else command_tokens
]

abbrev pub world : Platform
world = record {
  composite_key = escaped_key;
  tokens = tokens_of_document;
  bytes_of = codes;
  utf8_valid = λ b. true;
  decode_any = λ b. some null;
  encode_any = λ v. some (123 ∷ []);
  command = constant delivery_command;
  batch = constant carried;
  refs = constant carried_refs;
  transfer = plain;
  receipt = constant created_receipt;
  event = plain;
  lot = plain;
  text = constant "BAT-00000001";
  document_use = plain;
  create_input = constant create_input;
  handoff_input = constant handoff_input;
  freight_input = plain;
  report_input = plain;
  analysis_input = plain;
  configuration = plain;
  page_input = constant page_input;
  value = plain;
  source_key = plain;
  header = plain;
  envelope = plain;
  bundle = plain;
  opening = plain;
  source_record = plain;
  policy = plain;
  use_record = plain;
  eligibility = plain;
  purchase_body = plain;
  notification = plain;
  manifest = plain;
  freight_body = plain;
  cost_record = plain;
  retail_input = plain;
  retail_record = plain;
  anomaly_record = plain;
  evaluation_reference = plain;
  review_input = plain;
  review_action = plain;
  score = plain;
  base64_decode = λ s. some (codes s);
  base64_encode = λ b. "";
  sha256 = λ b. b;
  verify_signature = λ key msg sig. true;
}

-- Every page holds one value.
abbrev pub one_page : String → List String → ℤ → String → Result (List Bytes × String)
one_page kind attrs size bookmark = ok ((123 ∷ []) ∷ [], "")

abbrev pub empty : Ledger
empty = record {
  read = λ k. some [];
  refuses = λ o. false;
  has_private = true;
  read_private = λ c k. some [];
  page = one_page;
}

-- The batch in transport and its evidence are stored.
abbrev pub on_the_road : Ledger
on_the_road = record {
  read = λ k.
      if k == escaped_key "batch" ("BAT-00000001" ∷ [])
      then some (123 ∷ [])
      else if k == escaped_key "batchEvidence" ("BAT-00000001" ∷ [])
      then some (123 ∷ [])
      else some [];
  refuses = λ o. false;
  has_private = true;
  read_private = λ c k. some [];
  page = one_page;
}

abbrev pub producer : Execution
producer = record { actor = producer_msp; role = "producer"; tx_id = tx; time = now }

abbrev pub carrier : Execution
carrier = record { actor = logistics_msp; role = "carrier"; tx_id = tx; time = now }

abbrev pub stranger : Execution
stranger = record { actor = "NobodyMSP"; role = "producer"; tx_id = tx; time = now }

-- A proof whose money adds up.
abbrev pub proof : Verified
proof = record {
  public = [];
  private = [];
  cks = "DOC-00000001";
  purchase = "DOC-00000002";
  hks = "DOC-00000003";
  manifest = "DOC-00000004";
  quantity = pos 500000;
  purchase_price = pos 2000;
  purchase_total = pos 1000000;
  freight_total = pos 0;
  retail_price = pos 0;
  currency = "TRY";
  tax_basis = "EXCLUDING_TAX";
  policy_id = "";
}

abbrev pub provider : Command → Batch → EvidenceRefs → Result Verified
provider c b refs = ok proof

pub world-KeyLaw : KeyLaw world
world-KeyLaw = record { injective = escaped_key-injective }

pub provider-Respects : Respects world provider
unfolding planned
provider-Respects = record {
  avoids = λ c b refs v kind attrs given named.
      let same : proof ≡ v = ok-injective given in
      subst (λ (z : Verified). planned (key world kind attrs) z.public ≡ none) same refl;
}

pub world-ReceiptLaw : ReceiptLaw world
unfolding canonical ◌>>=◌ or_fail
world-ReceiptLaw = record { nonempty = λ r h. absurd (ground arith) }

-- A plan that writes one key and deletes another, and an event.
abbrev pub small_plan : WritePlan
small_plan = ("b", some (7 ∷ [])) ∷ ("a", none) ∷ []

abbrev pub small_event : Event
small_event = record {
  schema_version = "agrochain.event.v1";
  event_type = "BatchCreated";
  operation_id = "OP-00000001";
  batch_id = "BAT-00000001";
  actor_msp = producer_msp;
  tx_id = tx;
  tx_time = now;
  result_version = pos 1;
  object_ids = [];
  previous_state = "";
  new_state = "CREATED";
}

-- The plan of two documents that are consumed.
abbrev pub consumed : WritePlan
consumed =
    (escaped_key "documentReference" ("DOC-00000002" ∷ []), some (123 ∷ []))
    ∷ (escaped_key "documentReference" ("DOC-00000003" ∷ []), some (123 ∷ []))
    ∷ []

abbrev pub clock : Timestamp
clock = record { seconds = pos 1700000000; nanos = pos 0 }
