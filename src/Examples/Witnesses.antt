-- ===== src/Examples/Witnesses.antt =====
-- The theorems on `apply`, applied to the examples.
use agro_chain.Text.Decimal.{parse_int, format_int}
use agro_chain.Query.{query, receipt_answer}
use agro_chain.Query.Recovery.{query_recovers}
use agro_chain.Base.{◌∷◌, ap, String, [], some, ◌≡◌, refl, subst, arith, Bool, false, true}
use agro_chain.Codes.{ok-injective, unauthorized_organization, ok, err, duplicate_transaction}
use agro_chain.Text.{hex_id, valid_id, has_prefix, identifier, identifier_rest, valid_state}
use agro_chain.Model.{get_operation, Bytes, Command, Batch}
use agro_chain.Model.Zero.{zero_batch}
use agro_chain.Platform.{canonical, key}
use agro_chain.Ledger.{Ledger, load, load_bytes, unmarshalled}
use agro_chain.Ledger.Plan.{committed}
use agro_chain.Payload.{validate_payload, bad_quantity}
use agro_chain.Engine.{apply, bad_time}
use agro_chain.Engine.Advance.{Advanced, apply-Advanced}
use agro_chain.Engine.Commits.{batch_key}
use agro_chain.Engine.Custody.{WellFormed, owner_of, custodian_of}
use agro_chain.Engine.Effects.{apply_rejection}
use agro_chain.Engine.Replay.{Presentable, apply_replayed}
use agro_chain.Engine.Stored.{apply-WellFormed}
use agro_chain.Examples.World.{
  one_page, world, empty, on_the_road, provider, producer, carrier, stranger, world-KeyLaw,
  world-ReceiptLaw, provider-Respects,
}
use agro_chain.Examples.Data.{
  create_command, delivery_command, carried, created_receipt, delivery_receipt,
}
use agro_chain.Examples.Runs.{
  create_valid, create_authorized, create_accepted, delivery_accepted, stranger_refused,
}

apply-Advanced_example :
    Advanced world empty create_command producer created_receipt
      (committed (apply world empty provider create_command producer).1)
apply-Advanced_example =
    apply-Advanced world empty create_command producer provider world-KeyLaw provider-Respects
      created_receipt create_accepted

carried-WellFormed : WellFormed carried
unfolding valid_state owner_of custodian_of bad_quantity
carried-WellFormed = record {
  state = refl;
  owner = refl;
  custodian = refl;
  producer = refl;
  logistics = refl;
  retailer = refl;
  quantity = refl;
  lot = refl;
}

loaded-WellFormed :
    (b : Batch)
    → load world.batch on_the_road (batch_key world delivery_command) zero_batch ≡ ok (true, b)
    → WellFormed b
unfolding load load_bytes unmarshalled key
loaded-WellFormed b h =
    subst WellFormed (ap (λ (r : Bool × Batch). r.1) (ok-injective h)) carried-WellFormed

apply-WellFormed_example :
    (new : Batch) × (bytes : Bytes) × WellFormed new
    × (canonical world world.batch new ≡ ok bytes)
    × ((w : String → Bytes)
        → committed
            (apply world on_the_road provider delivery_command carrier).1
            w
            (batch_key world delivery_command)
          ≡ bytes)
apply-WellFormed_example =
    apply-WellFormed world on_the_road provider world-KeyLaw provider-Respects delivery_command
      carrier delivery_receipt loaded-WellFormed delivery_accepted

-- The ledger behind the commit of the first command, and a second command with its identifier.
abbrev pub behind : Ledger
behind = record {
  read = λ k. some (committed (apply world empty provider create_command producer).1 (λ i. []) k);
  refuses = λ o. false;
  has_private = true;
  read_private = λ c k. some [];
  page = one_page;
}

abbrev pub again_command : Command
again_command = record create_command { batch_id = "BAT-00000009" }

pub again-Presentable : Presentable world again_command producer
unfolding hex_id bad_time validate_payload parse_int format_int
again-Presentable = record {
  authorized = create_authorized;
  payload = create_valid;
  tx_id = refl;
  time = refl;
}

apply_replayed_example :
    apply world behind provider again_command producer ≡ (err duplicate_transaction, [])
apply_replayed_example =
    apply_replayed world world-KeyLaw world-ReceiptLaw empty behind provider provider
      provider-Respects create_command again_command producer producer created_receipt (λ i. [])
      create_accepted refl refl refl again-Presentable

apply_rejection_example : (apply world empty provider create_command stranger).1 ≡ []
apply_rejection_example =
    apply_rejection world empty provider create_command stranger unauthorized_organization
      stranger_refused (λ e. ground arith)

create_named : valid_id create_command.operation_id "OP" ≡ true
unfolding valid_id has_prefix identifier identifier_rest
create_named = refl

query_recovers_example :
    query world behind "0.3.0" producer.actor get_operation (create_command.operation_id ∷ [])
    ≡ ok (receipt_answer created_receipt)
query_recovers_example =
    query_recovers world world-KeyLaw world-ReceiptLaw empty behind provider provider-Respects
      create_command producer created_receipt (λ i. []) "0.3.0" create_accepted create_named refl
      (λ b h. refl)
