-- ===== src/Engine.antt =====
-- `engine.apply` of domain.go: the checks before a command, the command, the records that every
-- command writes, and the writes. Until the writes the engine only reads, so that part is a `Result`;
-- the writes stage operations, and what was staged is returned beside an error too.
pub mod Custody
pub mod Advance
pub mod Effects
pub mod Staged
pub mod Replay
pub mod Lifecycle
pub mod Written
pub mod Accepted
pub mod Commits
pub mod Stored
pub mod Clean
pub mod Frame
use agro_chain.Base.{
  String, Bool, true, false, not, ◌&&◌, ◌||◌, List, [], ◌∷◌, ◌++◌, Option, none, some, map, ◌==◌,
  ◌/=◌, if◌then◌else◌,
}
use agro_chain.Base.Int.{ℤ, pos, ltz, eqz, add64}
use agro_chain.Codes.{
  Result, ok, err, internal_error, duplicate_transaction, batch_already_exists, batch_not_found,
  version_conflict, unsupported_pilot_operation, ◌>>=◌, ◌>>◌, fail_if,
}
use agro_chain.Text.{hex_id}
use agro_chain.Text.Decimal.{parse_int, format_int, format_010}
use agro_chain.Model.{
  Fn, TxTime, Command, Batch, EvidenceRefs, Receipt, Event, PrivateWrite, create_batch,
  offer_pickup, accept_pickup, record_freight_cost, offer_delivery, accept_delivery,
  report_retail_price, evaluate_price, open_review, resolve_review,
}
use agro_chain.Model.Zero.{zero_batch}
use agro_chain.Platform.{Platform, key}
use agro_chain.Ledger.{
  Ledger, Op, put_private, WritePlan, assign, overlay, put_value, load, absent, sort_texts, stage,
  flush,
}
use agro_chain.Auth.{authorize}
use agro_chain.Payload.{validate_payload}
use agro_chain.Step.{Execution, Verified, Outcome}
use agro_chain.Step.Create.{create, analyse}
use agro_chain.Step.Handoff.{offer, accept}
use agro_chain.Step.Retail.{record_freight, report_retail}

unfoldable pub bad_seconds : Option ℤ → String → Bool
bad_seconds none text = true
bad_seconds (some n) text = ltz n (pos 0) || format_int n /= text

unfoldable pub bad_time : TxTime → Bool
unfolding bad_seconds
bad_time t =
    bad_seconds (parse_int t.seconds) t.seconds
    || ltz t.nanos (pos 0)
    || ltz (pos 999999999) t.nanos

unfoldable pub is_create : Fn → Bool
is_create create_batch = true
is_create _ = false

unfoldable pub existence : Bool → Bool → Result (Unit {0})
existence true exists = fail_if exists batch_already_exists
existence false exists = fail_if (not exists) batch_not_found

-- Adjacent repetitions are dropped.
keep_new : String → List String → List String
keep_new last [] = []
keep_new last (t ∷ ts) = let rest = keep_new t ts in if t == last then rest else t ∷ rest

unique : List String → List String
unfolding keep_new
unique [] = []
unique (t ∷ ts) = t ∷ keep_new t ts

unfoldable pub sorted_unique : List String → List String
unfolding unique
sorted_unique ids = unique (sort_texts ids)

-- What the engine has decided to write.
pub record Draft : Type 0 where
  pub plan : WritePlan
  pub private : List PrivateWrite
  pub receipt : Receipt
  pub event : Event

unfoldable pub fresh_refs : Command → EvidenceRefs
fresh_refs c = record {
  schema_version = "agrochain.batch-evidence.v1";
  batch_id = c.batch_id;
  cks_document_id = "";
  purchase_document_id = "";
  hks_document_id = "";
  transport_document_id = "";
  freight_cost_id = "";
  retail_report_id = "";
}

-- The batch as it is written: `b` behind the `switch`, with its new version.
unfoldable pub updated : Execution → Batch → Batch → Batch
updated x old b = record b {
  version = add64 old.version (pos 1);
  updated_tx_id = x.tx_id;
  tx_time = x.time;
}

unfoldable pub new_receipt : Command → Execution → Outcome → Batch → Receipt
new_receipt c x o b = record {
  schema_version = "agrochain.receipt.v1";
  operation_id = c.operation_id;
  batch_id = c.batch_id;
  command = c.command;
  actor_msp = x.actor;
  tx_id = x.tx_id;
  tx_time = x.time;
  result_version = b.version;
  object_ids = sorted_unique o.ids;
}

unfoldable pub new_event : Command → Execution → Outcome → Batch → Batch → Event
new_event c x o old b = record {
  schema_version = "agrochain.event.v1";
  event_type = o.event_name;
  operation_id = c.operation_id;
  batch_id = c.batch_id;
  actor_msp = x.actor;
  tx_id = x.tx_id;
  tx_time = x.time;
  result_version = b.version;
  object_ids = sorted_unique o.ids;
  previous_state = old.state;
  new_state = b.state;
}

unfoldable pub drop_key : Bool → String → WritePlan → WritePlan
drop_key false k plan = plan
drop_key true k plan = assign k none plan

unfoldable pub private_op : PrivateWrite → Op
private_op w = put_private w.collection w.key w.value

-- `len(proof.Private) > 0`
unfoldable pub has_any : List PrivateWrite → Bool
has_any [] = false
has_any (w ∷ ws) = true

unfoldable pub answer : Receipt → Result (Unit {0}) → Result Receipt
answer receipt (ok _) = ok receipt
answer receipt (err e) = err e

module _ (p : Platform) (s : Ledger) where
  -- Lines up to the check of the version: whether the batch exists, and the batch.
  unfoldable pub admit : Command → Execution → Result (Bool × Batch)
  admit c x = do
    authorize x.actor x.role c.command
    validate_payload p c
    fail_if (not (hex_id x.tx_id)) internal_error
    fail_if (bad_time x.time) internal_error
    absent s (key p "operation" (x.actor ∷ c.operation_id ∷ [])) duplicate_transaction
    loaded ← load p.batch s (key p "batch" (c.batch_id ∷ [])) zero_batch
    existence (is_create c.command) loaded.0
    fail_if (not (eqz loaded.1.version c.expected_version) || eqz loaded.1.version (pos 2147483647))
        version_conflict
    ok loaded

  unfoldable pub load_refs : Bool → Command → Result (Bool × EvidenceRefs)
  load_refs true c = load p.refs s (key p "batchEvidence" (c.batch_id ∷ [])) (fresh_refs c)
  load_refs false c = ok (false, fresh_refs c)

  -- The `switch` on the command.
  unfoldable pub run : Fn → Command → Execution → Verified → Batch → EvidenceRefs → Result Outcome
  run evaluate_price c x proof b refs = analyse p s c x proof true b refs
  run open_review c x proof b refs = analyse p s c x proof false b refs
  run resolve_review c x proof b refs = analyse p s c x proof false b refs
  run create_batch c x proof b refs = create p s c x proof refs
  run offer_pickup c x proof b refs = offer p s c x false proof b refs
  run offer_delivery c x proof b refs = offer p s c x true proof b refs
  run accept_pickup c x proof b refs = accept p s c x false b refs
  run accept_delivery c x proof b refs = accept p s c x true b refs
  run record_freight_cost c x proof b refs = record_freight p s c x proof b refs
  run report_retail_price c x proof b refs = report_retail p s c x proof b refs
  run _ c x proof b refs = err unsupported_pilot_operation

  -- The six records of every command.
  unfoldable pub record_all :
      Command → Execution → Batch → EvidenceRefs → Receipt → WritePlan → Result WritePlan
  record_all c x b refs receipt plan = do
    p₁ ← put_value p p.batch (key p "batch" (c.batch_id ∷ [])) b plan
    p₂ ← put_value p p.refs (key p "batchEvidence" (c.batch_id ∷ [])) refs p₁
    p₃ ← put_value p p.receipt (key p "operation" (x.actor ∷ c.operation_id ∷ [])) receipt p₂
    p₄ ← put_value p p.receipt (key p "history" (c.batch_id ∷ format_010 b.version ∷ [])) receipt p₃
    p₅ ← put_value p p.text (key p "owner" (b.owner_msp ∷ b.batch_id ∷ [])) b.batch_id p₄
    put_value p p.text (key p "state" (b.state ∷ b.batch_id ∷ [])) b.batch_id p₅

  -- The index entries of the old owner and the old state go.
  unfoldable pub reindex : Bool → Batch → Batch → WritePlan → WritePlan
  reindex exists old b plan =
      drop_key (exists && old.state /= b.state) (key p "state" (old.state ∷ b.batch_id ∷ [])) (
        drop_key (exists && old.owner_msp /= b.owner_msp)
          (key p "owner" (old.owner_msp ∷ b.batch_id ∷ [])) plan)

  unfoldable pub conclude : Command → Execution → Bool → Batch → Verified → Outcome → Result Draft
  conclude c x exists old proof o = do
    let b = updated x old o.batch
    let receipt = new_receipt c x o b
    plan ← record_all c x b o.refs receipt o.plan
    ok (record {
      plan = overlay (reindex exists old b plan) proof.public;
      private = proof.private;
      receipt = receipt;
      event = new_event c x o old b;
    })

  unfoldable pub decide :
      (Command → Batch → EvidenceRefs → Result Verified) → Command → Execution → Result Draft
  decide prepare c x = do
    found ← admit c x
    refs ← load_refs found.0 c
    proof ← prepare c found.1 refs.1
    outcome ← run c.command c x proof found.1 refs.1
    conclude c x found.0 found.1 proof outcome

  -- The flush, behind the private writes.
  unfoldable pub finish : Draft → Result (Unit {0}) × List Op → Result Receipt × List Op
  unfolding answer
  finish d (err e, ops) = (err e, ops)
  finish d (ok _, ops) =
      let flushed = flush p s d.plan d.event in (answer d.receipt flushed.0, ops ++ flushed.1)

  unfoldable pub write_all : Draft → Result Receipt × List Op
  write_all d =
      if has_any d.private && not s.has_private
      then (err internal_error, [])
      else finish d (stage s (map private_op d.private))

  write_decided : Result Draft → Result Receipt × List Op
  write_decided (err e) = (err e, [])
  write_decided (ok d) = write_all d

  -- The receipt, or the error, and the operations that were staged.
  unfoldable pub apply :
      (Command → Batch → EvidenceRefs → Result Verified)
      → Command
      → Execution
      → Result Receipt × List Op
  unfolding write_decided
  apply prepare c x = write_decided (decide prepare c x)
