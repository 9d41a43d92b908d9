-- ===== src/Query/Recovery.antt =====
-- What is read back of a command that was committed.
use agro_chain.Base.{String, true, [], ◌∷◌, some, ◌≡◌, ◌≢◌, ◌∙◌, refl, ap, subst}
use agro_chain.Codes.{Result, ok, ◌>>=◌, fail_if}
use agro_chain.Text.{valid_id}
use agro_chain.Model.{Bytes, Command, Batch, EvidenceRefs, Receipt, get_operation}
use agro_chain.Model.Zero.{zero_receipt}
use agro_chain.Platform.{Platform, Codec, key, canonical}
use agro_chain.Ledger.{Ledger, load, load_bytes, unmarshalled}
use agro_chain.Ledger.Plan.{committed}
use agro_chain.Step.{Execution, Verified}
use agro_chain.Engine.{apply}
use agro_chain.Engine.Commits.{operation_key, apply-Commits}
use agro_chain.Engine.Replay.{ReceiptLaw}
use agro_chain.Engine.Written.{KeyLaw, Respects}
use agro_chain.Query.{query, query_one, receipt_answer}

load_back :
    {A : Type 0} (codec : Codec A) (s : Ledger) (k : String) (b : Bytes) (zero_value v : A)
    → s.read k ≡ some b
    → b ≢ []
    → codec.unmarshal zero_value b ≡ (v, true)
    → load codec s k zero_value ≡ ok (true, v)
unfolding load load_bytes unmarshalled
load_back codec s k [] zero_value v reads ne back = absurd (ne refl)
load_back codec s k (c ∷ cs) zero_value v reads ne back = rw (reads, back) refl

answered :
    (p : Platform) (s : Ledger) (release actor id : String) (r : Receipt)
    → valid_id id "OP" ≡ true
    → load p.receipt s (key p "operation" (actor ∷ id ∷ [])) zero_receipt ≡ ok (true, r)
    → query p s release actor get_operation (id ∷ []) ≡ ok (receipt_answer r)
unfolding query query_one ◌>>=◌ fail_if
answered p s release actor id r named there = rw (named, there) refl

-- Let a command with an operation identifier of the right kind be accepted, let a later ledger read
-- the operation record that the commit left, and let json.Unmarshal read the encoding of the receipt
-- back. Then GetOperation, asked by the same actor with that identifier, answers the receipt that the
-- command returned.
pub query_recovers :
    (p : Platform) (law : KeyLaw p) (receipts : ReceiptLaw p) (s later : Ledger)
    (prepare : Command → Batch → EvidenceRefs → Result Verified) (respects : Respects p prepare)
    (c : Command) (x : Execution) (r : Receipt) (w : String → Bytes) (release : String)
    → (apply p s prepare c x).0 ≡ ok r
    → valid_id c.operation_id "OP" ≡ true
    → later.read (operation_key p c x)
      ≡ some (committed (apply p s prepare c x).1 w (operation_key p c x))
    → ((b : Bytes)
        → canonical p p.receipt r ≡ ok b
        → p.receipt.unmarshal zero_receipt b ≡ (r, true))
    → query p later release x.actor get_operation (c.operation_id ∷ []) ≡ ok (receipt_answer r)
query_recovers p law receipts s later prepare respects c x r w release h named reads back =
    let m = apply-Commits p s prepare c x law respects r h in
    let full : m.receipt_bytes ≢ [] = λ e.
      receipts.nonempty r (subst (λ b. canonical p p.receipt r ≡ ok b) e m.receipt_canonical) in
    answered p later release x.actor c.operation_id r named (
      load_back p.receipt later (operation_key p c x) m.receipt_bytes zero_receipt r
        (reads ∙ ap some (m.recorded w)) full (back m.receipt_bytes m.receipt_canonical))
