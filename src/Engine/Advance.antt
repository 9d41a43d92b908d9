-- ===== src/Engine/Advance.antt =====
-- The main theorem on `apply`: what an accepted command has checked, and what its commit leaves.
use agro_chain.Base.{
  String, Bool, true, false, [], ◌∷◌, Option, none, some, ◌≡◌, ◌⊎◌, inl, inr, Bool-cases, refl, sym,
  subst, ap, arith,
}
use agro_chain.Base.Int.{pos, add64}
use agro_chain.Codes.{guard_last, err-ne-ok, Result, ok, duplicate_transaction, ok-injective}
use agro_chain.Model.{Bytes, Command, Batch, EvidenceRefs, Receipt}
use agro_chain.Model.Zero.{zero_batch}
use agro_chain.Platform.{Platform, key, canonical}
use agro_chain.Ledger.{unmarshalled, Ledger, load, absent, load_bytes}
use agro_chain.Ledger.Plan.{committed}
use agro_chain.Auth.{authorize}
use agro_chain.Step.{Execution, Verified, Outcome}
use agro_chain.Engine.{run, is_create, existence, updated, new_receipt, apply}
use agro_chain.Engine.Commits.{batch_key, operation_key, apply-Commits}
use agro_chain.Engine.Lifecycle.{Transition, SameIdentity, run-Transition, run-SameIdentity}
use agro_chain.Engine.Written.{KeyLaw, Respects}

unmarshalled_found : (v : Batch × Bool) (b : Batch) → unmarshalled v ≡ ok (false, b) → ⊥
unfolding unmarshalled
unmarshalled_found (v, true) b h = ground arith
unmarshalled_found (v, false) b h = err-ne-ok h

loaded_missing :
    (p : Platform) (o : Option Bytes) (b : Batch)
    → load_bytes p.batch o zero_batch ≡ ok (false, b)
    → b ≡ zero_batch
unfolding load_bytes
loaded_missing p none b h = absurd (err-ne-ok h)
loaded_missing p (some []) b h = sym (ap (λ (r : Bool × Batch). r.1) (ok-injective h))
loaded_missing p (some (k ∷ ks)) b h =
    absurd (unmarshalled_found (p.batch.unmarshal zero_batch (k ∷ ks)) b h)

not_there : (exists : Bool) → existence true exists ≡ ok tt → exists ≡ false
unfolding existence
not_there exists h = guard_last _ _ h

absent_state :
    (p : Platform) (s : Ledger) (c : Command) (exists : Bool) (b : Batch)
    → load p.batch s (key p "batch" (c.batch_id ∷ [])) zero_batch ≡ ok (exists, b)
    → existence (is_create c.command) exists ≡ ok tt
    → is_create c.command ≡ true
    → b.state ≡ ""
unfolding load
absent_state p s c exists b h e new =
    let gone : exists ≡ false = not_there exists (subst (λ t. existence t exists ≡ ok tt) new e) in
    ap (λ (r : Batch). r.state)
      (loaded_missing p (s.read (key p "batch" (c.batch_id ∷ []))) b (
        subst (λ t. load p.batch s (key p "batch" (c.batch_id ∷ [])) zero_batch ≡ ok (t, b)) gone
          h))

SameIdentity-updated :
    (x : Execution) (a old b : Batch) → SameIdentity a b → SameIdentity a (updated x old b)
unfolding updated
SameIdentity-updated x a old b h = record {
  schema_version = h.schema_version;
  batch_id = h.batch_id;
  product_code = h.product_code;
  grade_code = h.grade_code;
  quantity_grams = h.quantity_grams;
  origin_region_code = h.origin_region_code;
  harvest_date = h.harvest_date;
  producer_msp = h.producer_msp;
  logistics_msp = h.logistics_msp;
  intended_retailer_msp = h.intended_retailer_msp;
  created_tx_id = h.created_tx_id;
}

kept_identity :
    (p : Platform) (s : Ledger) (c : Command) (x : Execution) (proof : Verified) (b : Batch)
    (refs : EvidenceRefs) (o : Outcome)
    → run p s c.command c x proof b refs ≡ ok o
    → (is_create c.command ≡ true) ⊎ SameIdentity b (updated x b o.batch)
kept_identity p s c x proof b refs o ran = elim (Bool-cases (is_create c.command)) [
  | inl new ↦ inl new
  | inr kept ↦ inr (
      SameIdentity-updated x b b o.batch
        (run-SameIdentity p s c x c.command proof b refs o kept ran))
]

module _ (p : Platform) (s : Ledger) (c : Command) (x : Execution) where
  -- A command that was accepted with a receipt, and what commits of its operations leave.
  pub record Advanced (r : Receipt) (after : (String → Bytes) → String → Bytes) : Type 0 where
    pub exists : Bool
    pub old : Batch
    pub new : Batch
    pub authorized : authorize x.actor x.role c.command ≡ ok tt
    pub fresh : absent s (operation_key p c x) duplicate_transaction ≡ ok tt
    pub loaded : load p.batch s (batch_key p c) zero_batch ≡ ok (exists, old)
    pub existed : existence (is_create c.command) exists ≡ ok tt
    pub expected : old.version ≡ c.expected_version
    pub version : new.version ≡ add64 old.version (pos 1)
    pub result_version : r.result_version ≡ new.version
    pub transition : Transition c.command old.state new.state
    pub identity : (is_create c.command ≡ true) ⊎ SameIdentity old new
    pub batch_bytes : Bytes
    pub batch_canonical : canonical p p.batch new ≡ ok batch_bytes
    pub stored : (w : String → Bytes) → after w (batch_key p c) ≡ batch_bytes
    pub receipt_bytes : Bytes
    pub receipt_canonical : canonical p p.receipt r ≡ ok receipt_bytes
    pub recorded : (w : String → Bytes) → after w (operation_key p c x) ≡ receipt_bytes

  module _ (prepare : Command → Batch → EvidenceRefs → Result Verified) (law : KeyLaw p)
      (respects : Respects p prepare) where
    -- If `apply` accepts a command with a receipt, then the caller was authorised, the operation was
    -- new, the stored batch (absent exactly for CreateBatch) had the expected version, and the commit
    -- of the staged operations leaves, whatever the world state was: under the batch key the encoding
    -- of a batch that is one version further, one transition of the lifecycle away and, but for
    -- CreateBatch, the same in everything that identifies it; and under the operation key the encoding
    -- of that receipt, which names the new version.
    pub apply-Advanced :
        (r : Receipt)
        → (apply p s prepare c x).0 ≡ ok r
        → Advanced r (committed (apply p s prepare c x).1)
    unfolding updated new_receipt
    apply-Advanced r h =
        let m = apply-Commits p s prepare c x law respects r h in
        let a = m.accepted in
        record {
          exists = a.exists;
          old = a.old;
          new = updated x a.old a.outcome.batch;
          authorized = a.admitted.authorized;
          fresh = a.admitted.unused;
          loaded = a.admitted.loaded;
          existed = a.admitted.existed;
          expected = a.admitted.version;
          version = refl;
          result_version = sym (ap (λ (z : Receipt). z.result_version) m.receipt);
          transition =
              run-Transition p s c x c.command a.proof a.old a.loaded_refs.1 a.outcome
                (absent_state p s c a.exists a.old a.admitted.loaded a.admitted.existed) a.ran;
          identity = kept_identity p s c x a.proof a.old a.loaded_refs.1 a.outcome a.ran;
          batch_bytes = m.batch_bytes;
          batch_canonical = m.batch_canonical;
          stored = m.stored;
          receipt_bytes = m.receipt_bytes;
          receipt_canonical = m.receipt_canonical;
          recorded = m.recorded;
        }
