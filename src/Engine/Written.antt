-- ===== src/Engine/Written.antt =====
-- What an accepted command leaves in the world state.
use agro_chain.Base.{
  String, Bool, true, false, List, [], ◌∷◌, none, some, ◌≡◌, ◌∙◌, refl, sym, ap, arith, ◌==◌,
  eq_iff, contains, Bool-cases, inl, inr,
}
use agro_chain.Codes.{Result, ok, from_bind, ok-injective}
use agro_chain.Model.{Bytes, Command, Batch, EvidenceRefs, Receipt}
use agro_chain.Platform.{Platform, Codec, key, canonical}
use agro_chain.Ledger.{Ledger, WritePlan, planned, overlay, put_value}
use agro_chain.Ledger.Plan.{planned-assign, planned-overlay}
use agro_chain.Step.{Execution, Verified}
use agro_chain.Engine.{drop_key, record_all, reindex}

-- Composite keys are injective: `CreateCompositeKey` separates the kind and the attributes by a
-- character that none of them holds.
pub record KeyLaw (p : Platform) : Type 0 where
  pub injective :
      (k k' : String) (attrs attrs' : List String)
      → p.composite_key k attrs ≡ p.composite_key k' attrs'
      → (k ≡ k') × (attrs ≡ attrs')

-- The kinds of key that the common end of `apply` writes.
abbrev pub reserved : List String
reserved = "batch" ∷ "batchEvidence" ∷ "operation" ∷ "history" ∷ "owner" ∷ "state" ∷ []

-- The evidence provider plans no write of those kinds.
pub record Respects (p : Platform) (prepare : Command → Batch → EvidenceRefs → Result Verified)
    : Type 0 where
  pub avoids :
      (c : Command) (b : Batch) (refs : EvidenceRefs) (v : Verified) (kind : String)
      (attrs : List String)
      → prepare c b refs ≡ ok v
      → contains kind reserved ≡ true
      → planned (key p kind attrs) v.public ≡ none

planned-put_same :
    (p : Platform) {A : Type 0} (codec : Codec A) (k : String) (v : A) (plan plan' : WritePlan)
    → put_value p codec k v plan ≡ ok plan'
    → (b : Bytes) × (canonical p codec v ≡ ok b) × (planned k plan' ≡ some (some b))
unfolding put_value
planned-put_same p codec k v plan plan' h = from_bind _ _ h λ b e h₁. (
  b,
  e,
  ap (planned k) (sym (ok-injective h₁))
      ∙ planned-assign k k (some b) plan
      ∙ rw ((eq_iff k k).1 refl) refl,
)

pub planned-put_other :
    (p : Platform) {A : Type 0} (codec : Codec A) (k j : String) (v : A) (plan plan' : WritePlan)
    → put_value p codec k v plan ≡ ok plan'
    → (k == j) ≡ false
    → planned j plan' ≡ planned j plan
unfolding put_value
planned-put_other p codec k j v plan plan' h ne =
    from_bind _ _ h λ b e h₁.
      ap (planned j) (sym (ok-injective h₁)) ∙ planned-assign k j (some b) plan ∙ rw ne refl

planned-drop_other :
    (t : Bool) (k j : String) (plan : WritePlan)
    → (k == j) ≡ false
    → planned j (drop_key t k plan) ≡ planned j plan
unfolding drop_key
planned-drop_other true k j plan ne = planned-assign k j none plan ∙ rw ne refl
planned-drop_other false k j plan ne = refl

module _ (p : Platform) (law : KeyLaw p) where
  pub key-ne :
      (k k' : String) (attrs attrs' : List String)
      → (k == k') ≡ false
      → (key p k attrs == key p k' attrs') ≡ false
  unfolding key
  key-ne k k' attrs attrs' ne = elim (Bool-cases (key p k attrs == key p k' attrs')) [
    | inl e ↦
        let same : k ≡ k' = (law.injective k k' attrs attrs' ((eq_iff _ _).0 e)).0 in
        absurd (ground (arith, eq_iff k k'))
    | inr e ↦ e
  ]

  -- The records that are read back: what the six puts plan for them.
  pub record Recorded (c : Command) (x : Execution) (b : Batch) (refs : EvidenceRefs)
      (receipt : Receipt) (plan : WritePlan) : Type 0 where
    pub batch_bytes : Bytes
    pub batch_canonical : canonical p p.batch b ≡ ok batch_bytes
    pub batch : planned (key p "batch" (c.batch_id ∷ [])) plan ≡ some (some batch_bytes)
    pub refs_bytes : Bytes
    pub refs_canonical : canonical p p.refs refs ≡ ok refs_bytes
    pub evidence : planned (key p "batchEvidence" (c.batch_id ∷ [])) plan ≡ some (some refs_bytes)
    pub receipt_bytes : Bytes
    pub receipt_canonical : canonical p p.receipt receipt ≡ ok receipt_bytes
    pub operation :
        planned (key p "operation" (x.actor ∷ c.operation_id ∷ [])) plan ≡ some (some receipt_bytes)

  pub record_all-Recorded :
      (s : Ledger) (c : Command) (x : Execution) (b : Batch) (refs : EvidenceRefs)
      (receipt : Receipt) (plan plan' : WritePlan)
      → record_all p s c x b refs receipt plan ≡ ok plan'
      → Recorded c x b refs receipt plan'
  unfolding record_all
  record_all-Recorded s c x b refs receipt plan plan' h = from_bind _ _ h λ p₁ e₁ h₁.
      from_bind _ _ h₁ λ p₂ e₂ h₂. from_bind _ _ h₂ λ p₃ e₃ h₃. from_bind _ _ h₃ λ p₄ e₄ h₄.
        from_bind _ _ h₄ λ p₅ e₅ e₆.
          let same₁ = planned-put_same p p.batch _ _ _ _ e₁ in
          let same₂ = planned-put_same p p.refs _ _ _ _ e₂ in
          let same₃ = planned-put_same p p.receipt _ _ _ _ e₃ in
          record {
            batch_bytes = same₁.0;
            batch_canonical = same₁.1;
            batch =
                planned-put_other p p.text _ _ _ _ _ e₆ (key-ne "state" "batch" _ _ refl)
                ∙ planned-put_other p p.text _ _ _ _ _ e₅ (key-ne "owner" "batch" _ _ refl)
                ∙ planned-put_other p p.receipt _ _ _ _ _ e₄ (key-ne "history" "batch" _ _ refl)
                ∙ planned-put_other p p.receipt _ _ _ _ _ e₃ (key-ne "operation" "batch" _ _ refl)
                ∙ planned-put_other p p.refs _ _ _ _ _ e₂ (key-ne "batchEvidence" "batch" _ _ refl)
                ∙ same₁.2;
            refs_bytes = same₂.0;
            refs_canonical = same₂.1;
            evidence =
                planned-put_other p p.text _ _ _ _ _ e₆ (key-ne "state" "batchEvidence" _ _ refl)
                ∙ planned-put_other p p.text _ _ _ _ _ e₅ (key-ne "owner" "batchEvidence" _ _ refl)
                ∙ planned-put_other p p.receipt _ _ _ _ _ e₄
                    (key-ne "history" "batchEvidence" _ _ refl)
                ∙ planned-put_other p p.receipt _ _ _ _ _ e₃
                    (key-ne "operation" "batchEvidence" _ _ refl)
                ∙ same₂.2;
            receipt_bytes = same₃.0;
            receipt_canonical = same₃.1;
            operation =
                planned-put_other p p.text _ _ _ _ _ e₆ (key-ne "state" "operation" _ _ refl)
                ∙ planned-put_other p p.text _ _ _ _ _ e₅ (key-ne "owner" "operation" _ _ refl)
                ∙ planned-put_other p p.receipt _ _ _ _ _ e₄ (key-ne "history" "operation" _ _ refl)
                ∙ same₃.2;
          }

  -- Neither the index entries that go nor the evidence of the command touch the other records.
  pub planned-final :
      (s : Ledger) (exists : Bool) (old b : Batch) (plan public : WritePlan) (kind : String)
      (attrs : List String)
      → ("state" == kind) ≡ false
      → ("owner" == kind) ≡ false
      → planned (key p kind attrs) public ≡ none
      → planned (key p kind attrs) (overlay (reindex p s exists old b plan) public)
        ≡ planned (key p kind attrs) plan
  unfolding reindex
  planned-final s exists old b plan public kind attrs ne₁ ne₂ h =
      planned-overlay _ public _
      ∙ rw h (
          planned-drop_other _ _ _ _ (key-ne "state" kind _ _ ne₁)
          ∙ planned-drop_other _ _ _ _ (key-ne "owner" kind _ _ ne₂))
