-- ===== src/Engine/Accepted.antt =====
-- What a command that `decide` accepts has passed: the checks of `admit`, the evidence provider, the
-- `switch` and the serialisation of the records.
use agro_chain.Base.{Bool, true, false, [], ◌∷◌, ◌≡◌, refl, subst, or-eq-false, not-eq-false}
use agro_chain.Base.Int.{pos, eqz, eqz→eq}
use agro_chain.Codes.{
  Result, ok, duplicate_transaction, from_bind, from_guard, from_step, ok-injective,
}
use agro_chain.Text.{hex_id}
use agro_chain.Model.{Command, Batch, EvidenceRefs}
use agro_chain.Model.Zero.{zero_batch}
use agro_chain.Platform.{Platform, key}
use agro_chain.Ledger.{Ledger, WritePlan, overlay, load, absent}
use agro_chain.Auth.{authorize}
use agro_chain.Payload.{validate_payload}
use agro_chain.Step.{Execution, Verified, Outcome}
use agro_chain.Engine.{
  Draft, bad_time, is_create, existence, updated, new_receipt, new_event, admit, load_refs, run,
  record_all, reindex, conclude, decide,
}

module _ (p : Platform) (s : Ledger) (c : Command) (x : Execution) where
  pub record Admitted (exists : Bool) (old : Batch) : Type 0 where
    pub authorized : authorize x.actor x.role c.command ≡ ok tt
    pub payload : validate_payload p c ≡ ok tt
    pub tx_id : hex_id x.tx_id ≡ true
    pub time : bad_time x.time ≡ false
    pub unused :
        absent s (key p "operation" (x.actor ∷ c.operation_id ∷ [])) duplicate_transaction ≡ ok tt
    pub loaded : load p.batch s (key p "batch" (c.batch_id ∷ [])) zero_batch ≡ ok (exists, old)
    pub existed : existence (is_create c.command) exists ≡ ok tt
    pub version : old.version ≡ c.expected_version
    pub not_last : eqz old.version (pos 2147483647) ≡ false

  pub admit-Admitted : (found : Bool × Batch) → admit p s c x ≡ ok found → Admitted found.0 found.1
  unfolding admit
  admit-Admitted found h = from_step _ _ h λ authorized h₁. from_step _ _ h₁ λ payload h₂.
      from_guard _ _ _ h₂ λ tx_id h₃. from_guard _ _ _ h₃ λ time h₄. from_step _ _ h₄ λ unused h₅.
        from_bind _ _ h₅ λ l loaded h₆. from_step _ _ h₆ λ existed h₇.
          from_guard _ _ _ h₇ λ versions h₈.
            let e : l ≡ found = ok-injective h₈ in
            let (same, not_last) = or-eq-false _ _ versions in
            subst (λ f. Admitted f.0 f.1) e
              (record {
                authorized = authorized;
                payload = payload;
                tx_id = not-eq-false _ tx_id;
                time = time;
                unused = unused;
                loaded = loaded;
                existed = existed;
                version = eqz→eq _ _ (not-eq-false _ same);
                not_last = not_last;
              })

  pub record Accepted (prepare : Command → Batch → EvidenceRefs → Result Verified) (d : Draft)
      : Type 0 where
    pub exists : Bool
    pub old : Batch
    pub loaded_refs : Bool × EvidenceRefs
    pub proof : Verified
    pub outcome : Outcome
    pub plan : WritePlan
    pub admitted : Admitted exists old
    pub refs_loaded : load_refs p s exists c ≡ ok loaded_refs
    pub prepared : prepare c old loaded_refs.1 ≡ ok proof
    pub ran : run p s c.command c x proof old loaded_refs.1 ≡ ok outcome
    pub recorded :
        record_all p s c x
          (updated x old outcome.batch)
          outcome.refs
          (new_receipt c x outcome (updated x old outcome.batch))
          outcome.plan
        ≡ ok plan
    pub receipt : d.receipt ≡ new_receipt c x outcome (updated x old outcome.batch)
    pub event : d.event ≡ new_event c x outcome old (updated x old outcome.batch)
    pub planned :
        d.plan ≡ overlay (reindex p s exists old (updated x old outcome.batch) plan) proof.public

  pub decide-Accepted :
      (prepare : Command → Batch → EvidenceRefs → Result Verified) (d : Draft)
      → decide p s prepare c x ≡ ok d
      → Accepted prepare d
  unfolding decide conclude
  decide-Accepted prepare d h = from_bind _ _ h λ found admitted h₁.
      from_bind _ _ h₁ λ refs refs_loaded h₂. from_bind _ _ h₂ λ proof prepared h₃.
        from_bind _ _ h₃ λ o ran h₄. from_bind _ _ h₄ λ plan recorded h₅.
          subst (Accepted prepare) (ok-injective h₅) (record {
            exists = found.0;
            old = found.1;
            loaded_refs = refs;
            proof = proof;
            outcome = o;
            plan = plan;
            admitted = admit-Admitted found admitted;
            refs_loaded = refs_loaded;
            prepared = prepared;
            ran = ran;
            recorded = recorded;
            receipt = refl;
            event = refl;
            planned = refl;
          })
