-- ===== src/History/Receipts.antt =====
-- The receipts of a history: they stay, so an operation runs at most once.
use agro_chain.Base.{
  String, false, [], ◌∷◌, some, ◌≡◌, ◌≢◌, ◌∙◌, refl, sym, subst, ap, ◌==◌, eq_iff, Bool-cases, inl,
  inr,
}
use agro_chain.Codes.{Code, Result, ok, err, duplicate_transaction, err-ne-ok}
use agro_chain.Model.{Bytes, Command, Batch, EvidenceRefs, Receipt}
use agro_chain.Platform.{Platform, key, canonical}
use agro_chain.Ledger.{Ledger, absent, absent_bytes}
use agro_chain.Ledger.Plan.{committed}
use agro_chain.Step.{Execution, Verified}
use agro_chain.Engine.{apply}
use agro_chain.Engine.Advance.{apply-Advanced}
use agro_chain.Engine.Commits.{operation_key}
use agro_chain.Engine.Frame.{Foreign, apply-frame}
use agro_chain.Engine.Replay.{ReceiptLaw, Presentable, apply_replayed}
use agro_chain.Engine.Written.{KeyLaw, Respects, key-ne}
use agro_chain.Evidence.Bootstrap.Keys.{bootstrap-frame}
use agro_chain.History.{World, Serves, Step, Reaches, accepted, configured, unchanged, start, after}

absent_empty : (o : Bytes) (code : Code) → absent_bytes (some o) code ≡ ok tt → o ≡ []
unfolding absent_bytes
absent_empty [] code h = refl
absent_empty (b ∷ bs) code h = absurd (err-ne-ok h)

module _ (p : Platform) (law : KeyLaw p) where
  -- The key of a receipt.
  abbrev pub receipt_key : String → String → String
  receipt_key actor id = key p "operation" (actor ∷ id ∷ [])

  operation_key-Foreign :
      (c : Command) (x : Execution) (actor id : String)
      → (operation_key p c x == receipt_key actor id) ≡ false
      → Foreign p c x "operation" (actor ∷ id ∷ [])
  operation_key-Foreign c x actor id other = record {
    named = refl;
    evidence = refl;
    history = refl;
    owner = refl;
    state = refl;
    batch = key-ne p law "batch" "operation" _ _ refl;
    operation = other;
  }

  kept_by :
      (s : Ledger) (prepare : Command → Batch → EvidenceRefs → Result Verified) (c : Command)
      (x : Execution) (r : Receipt) (w : World) (actor id : String)
      → Serves s w
      → Respects p prepare
      → (apply p s prepare c x).0 ≡ ok r
      → w (receipt_key actor id) ≢ []
      → committed (apply p s prepare c x).1 w (receipt_key actor id) ≡ w (receipt_key actor id)
  unfolding absent
  kept_by s prepare c x r w actor id serves respects h full =
      elim (Bool-cases (operation_key p c x == receipt_key actor id)) [
        | inl e ↦
            let same : operation_key p c x ≡ receipt_key actor id = (eq_iff _ _).0 e in
            let a = apply-Advanced p s c x prepare law respects r h in
            let empty : w (operation_key p c x) ≡ [] = absent_empty _ duplicate_transaction (
              subst (λ o. absent_bytes o duplicate_transaction ≡ ok tt)
                (serves.reads (operation_key p c x)) a.fresh) in
            absurd (full (subst (λ k. w k ≡ []) same empty))
        | inr e ↦
            apply-frame p law s c x prepare respects r w "operation" (actor ∷ id ∷ [])
              (operation_key-Foreign c x actor id e) h
      ]

  step-receipt :
      {w w' : World} (actor id : String)
      → Step p w w'
      → w (receipt_key actor id) ≢ []
      → w' (receipt_key actor id) ≡ w (receipt_key actor id)
  step-receipt actor id (accepted s prepare c x r w w' serves respects h done) full =
      done _ ∙ kept_by s prepare c x r w actor id serves respects h full
  step-receipt actor id (configured s x raw c w w' serves h done) full =
      done _ ∙ bootstrap-frame p law s x raw c w "operation" _ refl h
  step-receipt actor id (unchanged w w' done) full = done _

  -- A receipt that the world state holds stays as it is, byte for byte, in every later world state.
  pub receipt-stays :
      {w v : World} (actor id : String)
      → Reaches p w v
      → w (receipt_key actor id) ≢ []
      → v (receipt_key actor id) ≡ w (receipt_key actor id)
  receipt-stays actor id start full = refl
  receipt-stays actor id (after earlier step) full =
      let before = receipt-stays actor id earlier full in
      step-receipt actor id step (λ e. full (sym before ∙ e)) ∙ before

  -- An operation runs at most once in a whole history: let a command be accepted and committed, and let
  -- any number of further commands and bootstraps be committed. Then every later command of the same
  -- actor under the same operation identifier, whatever it asks for, that passes the checks on the
  -- caller, the payload and the transaction is refused with DUPLICATE_TRANSACTION and stages nothing.
  pub operation_once :
      (receipts : ReceiptLaw p) (s later : Ledger)
      (prepare again : Command → Batch → EvidenceRefs → Result Verified)
      (respects : Respects p prepare) (c c' : Command) (x x' : Execution) (r : Receipt)
      (w v : World)
      → (apply p s prepare c x).0 ≡ ok r
      → Reaches p (committed (apply p s prepare c x).1 w) v
      → Serves later v
      → c'.operation_id ≡ c.operation_id
      → x'.actor ≡ x.actor
      → Presentable p c' x'
      → apply p later again c' x' ≡ (err duplicate_transaction, [])
  operation_once receipts s later prepare again respects c c' x x' r w v h history serves same_id
        same_actor shown =
      let a = apply-Advanced p s c x prepare law respects r h in
      let full : committed (apply p s prepare c x).1 w (operation_key p c x) ≢ [] = λ e.
        receipts.nonempty r (
          subst (λ b. canonical p p.receipt r ≡ ok b) (sym (a.recorded w) ∙ e)
            a.receipt_canonical) in
      apply_replayed p law receipts s later prepare again respects c c' x x' r w h same_id
        same_actor
        (serves.reads (operation_key p c x)
          ∙ ap some (receipt-stays x.actor c.operation_id history full))
        shown
