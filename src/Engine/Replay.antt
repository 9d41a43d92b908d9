-- ===== src/Engine/Replay.antt =====
-- A second command under the operation identifier of a committed one (`engine.apply`, domain.go).
use agro_chain.Base.{subst, String, false, true, [], ◌∷◌, some, ◌≡◌, ◌≢◌, ◌∙◌, refl, sym, ap}
use agro_chain.Codes.{Result, ok, err, duplicate_transaction, ◌>>=◌, fail_if}
use agro_chain.Text.{hex_id}
use agro_chain.Model.{Bytes, Command, Batch, EvidenceRefs, Receipt}
use agro_chain.Platform.{Platform, canonical}
use agro_chain.Ledger.{Ledger, absent, absent_bytes}
use agro_chain.Ledger.Plan.{committed}
use agro_chain.Auth.{authorize}
use agro_chain.Payload.{validate_payload}
use agro_chain.Step.{Execution, Verified}
use agro_chain.Engine.{bad_time, admit, decide, write_decided, apply}
use agro_chain.Engine.Written.{KeyLaw, Respects}
use agro_chain.Engine.Advance.{apply-Advanced}
use agro_chain.Engine.Commits.{operation_key}

-- The encoding of a receipt is a JSON object, and so not empty.
pub record ReceiptLaw (p : Platform) : Type 0 where
  pub nonempty : (r : Receipt) → canonical p p.receipt r ≡ ok [] → ⊥

-- What a command passes before the engine looks for its operation.
pub record Presentable (p : Platform) (c : Command) (x : Execution) : Type 0 where
  pub authorized : authorize x.actor x.role c.command ≡ ok tt
  pub payload : validate_payload p c ≡ ok tt
  pub tx_id : hex_id x.tx_id ≡ true
  pub time : bad_time x.time ≡ false

used :
    (s : Ledger) (k : String) (o : Bytes)
    → s.read k ≡ some o
    → o ≢ []
    → absent s k duplicate_transaction ≡ err duplicate_transaction
unfolding absent absent_bytes
used s k [] e ne = absurd (ne refl)
used s k (b ∷ bs) e ne = rw e refl

duplicate_admit :
    (p : Platform) (s : Ledger) (c : Command) (x : Execution)
    → Presentable p c x
    → absent s (operation_key p c x) duplicate_transaction ≡ err duplicate_transaction
    → admit p s c x ≡ err duplicate_transaction
unfolding admit ◌>>=◌ fail_if
duplicate_admit p s c x h u = rw (h.authorized, h.payload, h.tx_id, h.time, u) refl

duplicate_apply :
    (p : Platform) (s : Ledger) (prepare : Command → Batch → EvidenceRefs → Result Verified)
    (c : Command) (x : Execution)
    → admit p s c x ≡ err duplicate_transaction
    → apply p s prepare c x ≡ (err duplicate_transaction, [])
unfolding apply decide write_decided ◌>>=◌
duplicate_apply p s prepare c x h = rw h refl

-- Let a command of an actor be accepted, and let a later ledger read the operation record that the
-- commit left. Then every command of that actor with the same operation identifier, whatever its
-- function, batch and payload, that passes the checks on the caller, the payload and the transaction,
-- is refused with DUPLICATE_TRANSACTION and stages nothing.
pub apply_replayed :
    (p : Platform) (law : KeyLaw p) (receipts : ReceiptLaw p) (s later : Ledger)
    (prepare again : Command → Batch → EvidenceRefs → Result Verified)
    (respects : Respects p prepare) (c c' : Command) (x x' : Execution) (r : Receipt)
    (w : String → Bytes)
    → (apply p s prepare c x).0 ≡ ok r
    → c'.operation_id ≡ c.operation_id
    → x'.actor ≡ x.actor
    → later.read (operation_key p c x)
      ≡ some (committed (apply p s prepare c x).1 w (operation_key p c x))
    → Presentable p c' x'
    → apply p later again c' x' ≡ (err duplicate_transaction, [])
apply_replayed p law receipts s later prepare again respects c c' x x' r w h same_id same_actor
      reads shown =
    let a = apply-Advanced p s c x prepare law respects r h in
    let k : operation_key p c x ≡ operation_key p c' x' = rw (same_id, same_actor) refl in
    let there : later.read (operation_key p c' x') ≡ some a.receipt_bytes =
      sym (ap later.read k) ∙ reads ∙ ap some (a.recorded w) in
    let full : a.receipt_bytes ≢ [] = λ e.
      receipts.nonempty r (subst (λ b. canonical p p.receipt r ≡ ok b) e a.receipt_canonical) in
    duplicate_apply p later again c' x'
      (duplicate_admit p later c' x' shown (used later _ a.receipt_bytes there full))
