-- ===== src/Engine/Stored.antt =====
-- The rules of `Engine.Custody` and the batch that a commit of `engine.apply` leaves.
use agro_chain.Base.{String, Bool, true, false, ◌≡◌, subst, not-eq-false}
use agro_chain.Codes.{Result, ok, guard_last}
use agro_chain.Model.{Bytes, Command, Batch, EvidenceRefs, Receipt}
use agro_chain.Model.Zero.{zero_batch}
use agro_chain.Platform.{Platform, canonical}
use agro_chain.Ledger.{Ledger, load}
use agro_chain.Ledger.Plan.{committed}
use agro_chain.Payload.{validate_payload}
use agro_chain.Step.{Execution, Verified}
use agro_chain.Engine.{is_create, existence, updated, apply}
use agro_chain.Engine.Commits.{batch_key, apply-Commits}
use agro_chain.Engine.Custody.{WellFormed, run-WellFormed}
use agro_chain.Engine.Written.{KeyLaw, Respects}

WellFormed-updated : (x : Execution) (old b : Batch) → WellFormed b → WellFormed (updated x old b)
unfolding updated
WellFormed-updated x old b w = record {
  state = w.state;
  owner = w.owner;
  custodian = w.custodian;
  producer = w.producer;
  logistics = w.logistics;
  retailer = w.retailer;
  quantity = w.quantity;
  lot = w.lot;
}

there : (exists : Bool) → existence false exists ≡ ok tt → exists ≡ true
unfolding existence
there exists h = not-eq-false _ (guard_last _ _ h)

module _ (p : Platform) (s : Ledger) (prepare : Command → Batch → EvidenceRefs → Result Verified)
    (law : KeyLaw p) (respects : Respects p prepare) where
  -- If the batch that is stored under the key of a command, when there is one, obeys the rules on
  -- owner, custodian, route, quantity and retail lot, and `apply` accepts the command with a receipt,
  -- then the commit of what it staged leaves under that key, whatever the world state was, the
  -- encoding of a batch that obeys them.
  pub apply-WellFormed :
      (c : Command) (x : Execution) (r : Receipt)
      → ((b : Batch) → load p.batch s (batch_key p c) zero_batch ≡ ok (true, b) → WellFormed b)
      → (apply p s prepare c x).0 ≡ ok r
      → (new : Batch) × (bytes : Bytes) × WellFormed new
        × (canonical p p.batch new ≡ ok bytes)
        × ((w : String → Bytes) → committed (apply p s prepare c x).1 w (batch_key p c) ≡ bytes)
  unfolding validate_payload
  apply-WellFormed c x r rules h =
      let m = apply-Commits p s prepare c x law respects r h in
      let a = m.accepted in
      let before : is_create c.command ≡ false → WellFormed a.old = λ kept. rules a.old (
        subst (λ t. load p.batch s (batch_key p c) zero_batch ≡ ok (t, a.old))
          (there a.exists (subst (λ t. existence t a.exists ≡ ok tt) kept a.admitted.existed))
          a.admitted.loaded) in
      (
        updated x a.old a.outcome.batch,
        m.batch_bytes,
        WellFormed-updated x a.old a.outcome.batch (
            run-WellFormed p s c x c.command a.proof a.old a.loaded_refs.1 a.outcome
              a.admitted.authorized a.admitted.payload before a.ran),
        m.batch_canonical,
        m.stored,
      )
