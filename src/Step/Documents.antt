-- ===== src/Step/Documents.antt =====
-- `consumeDocument` of domain.go, and the loop over the documents of a pickup.
use agro_chain.Base.{String, not, List, [], ◌∷◌, Option, none, some}
use agro_chain.Codes.{
  Result, ok, err, missing_evidence, document_already_used, ◌>>=◌, ◌>>◌, fail_if,
}
use agro_chain.Text.{valid_id}
use agro_chain.Model.{Command}
use agro_chain.Platform.{Platform, key}
use agro_chain.Ledger.{Ledger, WritePlan, planned, put_value, absent}

-- `_, ok := p[k]`
unfoldable pub not_planned : Option (Option (List Prim.Native.Nat.ℕ)) → Result (Unit {0})
not_planned none = ok tt
not_planned (some v) = err document_already_used

module _ (p : Platform) (s : Ledger) (c : Command) where
  unfoldable pub consume_document : String → WritePlan → Result WritePlan
  consume_document id plan = do
    fail_if (not (valid_id id "DOC")) missing_evidence
    not_planned (planned (key p "documentReference" (id ∷ [])) plan)
    absent s (key p "documentReference" (id ∷ [])) document_already_used
    put_value p p.document_use (key p "documentReference" (id ∷ []))
        (record { batch_id = c.batch_id; operation_id = c.operation_id }) plan

  -- The loop over the documents of a pickup.
  unfoldable pub consume_documents : List String → WritePlan → Result WritePlan
  consume_documents [] plan = ok plan
  consume_documents (id ∷ ids) plan =
      consume_document id plan >>= λ next. consume_documents ids next
