-- ===== src/Provider/Documents.antt =====
-- The documents of a command that the provider accepts (`prepare` of private.go).
use agro_chain.Base.{
  String, Bool, true, false, List, [], ◌∷◌, ◌≡◌, ◌≢◌, ◌∙◌, refl, sym, subst, ap, arith, ◌==◌,
  eq_iff, Bool-cases, inl, inr, if◌then◌else◌, All, or-eq-false, eq_of_not-ne, ℕ, length, eqb,
  not-eq-false,
}
use agro_chain.Codes.{
  ok, ok-injective, document_already_used, source_nonce_already_used, from_bind, from_guard,
  from_step,
}
use agro_chain.Model.{Fn, Command, Batch, EvidenceRefs}
use agro_chain.Model.Evidence.{Bundle}
use agro_chain.Platform.{Platform, key}
use agro_chain.Ledger.{Ledger, absent}
use agro_chain.Step.{Execution, Verified}
use agro_chain.Evidence.Trust.{IsTrusted, verify_bundle-IsTrusted}
use agro_chain.Provider.{
  Transient, any_required, no_evidence, required_of, system_for, without, use_once, record_uses,
  documents_for,
}
use agro_chain.Provider.Prepare.{take_document, take_documents, document_evidence}

eq_of_eqb : (a b : ℕ) → eqb a b ≡ true → a ≡ b
eq_of_eqb a b h = ground arith

-- The documents are of different types.
abbrev pub DistinctTypes : List Bundle → Type 0
DistinctTypes [] = Unit
DistinctTypes (d ∷ ds) =
    All (λ (e : Bundle). d.envelope.header.document_type ≢ e.envelope.header.document_type) ds
    × DistinctTypes ds

-- A type that was taken is not required any more.
gone : (u : String) (rs : List (String × String)) → system_for u (without u rs) ≡ ""
unfolding system_for without
gone u [] = refl
gone u ((v, system) ∷ rs) = go (v == u) refl (gone u rs)
  where
    go :
        (b : Bool)
        → (v == u) ≡ b
        → system_for u (without u rs) ≡ ""
        → system_for u (without u ((v, system) ∷ rs)) ≡ ""
    go true e rest = rw (e, without) rest
    go false e rest = rw (e, without, system_for, e) rest

not_gone :
    (t u : String) (rs : List (String × String))
    → (system_for t (without u rs) == "") ≡ false
    → u ≢ t
not_gone t u rs h e =
    let bad : (system_for t (without u rs) == "") ≡ true = rw (sym e, gone u rs) refl in
    ground arith

-- What is left of the required types is required.
system_for-without :
    (t u : String) (rs : List (String × String))
    → u ≢ t
    → system_for t (without u rs) ≡ system_for t rs
unfolding system_for without
system_for-without t u [] other = refl
system_for-without t u ((v, system) ∷ rs) other = go (v == u) refl (system_for-without t u rs other)
  where
    go :
        (b : Bool)
        → (v == u) ≡ b
        → system_for t (without u rs) ≡ system_for t rs
        → system_for t (without u ((v, system) ∷ rs)) ≡ system_for t ((v, system) ∷ rs)
    go true e rest =
        let apart : (v == t) ≡ false = (elim (Bool-cases (v == t)) [
          | inl k ↦ absurd (other (sym ((eq_iff v u).0 e) ∙ (eq_iff v t).0 k))
          | inr k ↦ k
        ]) in
        rw (e, without, system_for, apart) rest
    go false e rest = rw (e, without) (ap (λ z. if v == t then system else z) rest)

All-map :
    {P Q : Bundle → Type 0} (ds : List Bundle) → ((d : Bundle) → P d → Q d) → All P ds → All Q ds
All-map [] f h = tt
All-map (d ∷ ds) f (first, rest) = (f d first, All-map ds f rest)

nothing_required : (rs : List (String × String)) → any_required rs ≡ false → length rs ≡ 0
unfolding any_required
nothing_required [] h = refl
nothing_required (r ∷ rs) h = ground arith

length-documents_for :
    (p : Platform) (t : Transient) (fn : Fn) (ds : List Bundle)
    → documents_for p fn t ≡ ok ds
    → length ds ≡ length (required_of fn)
unfolding documents_for
length-documents_for p t fn ds h = elim (Bool-cases (any_required (required_of fn))) [
  | inl some_type ↦ from_bind _ _ (rw some_type at h) λ found _ h₁.
      from_guard _ _ _ h₁
        λ count last. ap length (sym (ok-injective last)) ∙ eq_of_eqb _ _ (not-eq-false _ count)
  | inr none_required ↦
      ap length (sym (ok-injective (rw none_required at h)))
      ∙ sym (nothing_required (required_of fn) none_required)
]

module _ (p : Platform) (s : Ledger) where
  -- A document that a command uses, of a type that is required.
  pub record IsTaken (c : Command) (required : List (String × String)) (d : Bundle) : Type 0 where
    pub trusted : IsTrusted p s d
    pub batch : d.envelope.header.batch_id ≡ c.batch_id
    pub operation : d.envelope.header.operation_id ≡ c.operation_id
    pub system :
        system_for d.envelope.header.document_type required ≡ d.envelope.header.source_system
    pub required_type : (system_for d.envelope.header.document_type required == "") ≡ false
    pub fresh :
        absent s (key p "document" (d.envelope.header.document_id ∷ [])) document_already_used
        ≡ ok tt
    pub fresh_source :
        absent s
          (key p "sourceUse"
            (d.envelope.header.issuer_id ∷ d.envelope.header.source_document_id ∷ []))
          document_already_used
        ≡ ok tt
    pub fresh_nonce :
        absent s
          (key p "nonceUse" (d.envelope.header.issuer_id ∷ d.envelope.header.nonce ∷ []))
          source_nonce_already_used
        ≡ ok tt

  weaken :
      (c : Command) (u : String) (rs : List (String × String)) (d : Bundle)
      → IsTaken c (without u rs) d
      → IsTaken c rs d
  weaken c u rs d k =
      let t = d.envelope.header.document_type in
      let same = system_for-without t u rs (not_gone t u rs k.required_type) in
      record {
        trusted = k.trusted;
        batch = k.batch;
        operation = k.operation;
        system = sym same ∙ k.system;
        required_type = subst (λ z. (z == "") ≡ false) same k.required_type;
        fresh = k.fresh;
        fresh_source = k.fresh_source;
        fresh_nonce = k.fresh_nonce;
      }

  module _ (t : Transient) (x : Execution) (c : Command) (b : Batch) where
    take_document-IsTaken :
        (required : List (String × String)) (d : Bundle) (v v' : Verified)
        → take_document p s t x c b required d v ≡ ok v'
        → IsTaken c required d
    unfolding take_document record_uses use_once
    take_document-IsTaken required d v v' h = from_guard _ _ _ h λ typed h₁.
        from_step _ _ h₁ λ verified h₂. from_guard _ _ _ h₂ λ bound h₃.
          from_bind _ _ h₃ λ plan used h₄. from_bind _ _ used λ p₁ first u₁.
            from_bind _ _ u₁ λ p₂ second u₂. from_bind _ _ u₂ λ p₃ third _.
              from_step _ _ first λ _ f₁. from_step _ _ f₁ λ fresh _. from_step _ _ second λ _ f₂.
                from_step _ _ f₂ λ fresh_source _. from_step _ _ third λ _ f₃.
                  from_step _ _ f₃ λ fresh_nonce _. record {
                    trusted = verify_bundle-IsTrusted p s d verified;
                    batch = eq_of_not-ne _ _ (or-eq-false _ _ bound).0;
                    operation = eq_of_not-ne _ _ (or-eq-false _ _ bound).1;
                    system = eq_of_not-ne _ _ (or-eq-false _ _ typed).0;
                    required_type = (or-eq-false _ _ typed).1;
                    fresh = fresh;
                    fresh_source = fresh_source;
                    fresh_nonce = fresh_nonce;
                  }

    take_documents-IsTaken :
        (ds : List Bundle) (required : List (String × String)) (v v' : Verified)
        → take_documents p s t x c b required ds v ≡ ok v'
        → All (IsTaken c required) ds × DistinctTypes ds
    unfolding take_documents
    take_documents-IsTaken [] required v v' h = (tt, tt)
    take_documents-IsTaken (d ∷ ds) required v v' h = from_bind _ _ h λ next one rest.
        let u = d.envelope.header.document_type in
        let (taken, distinct) = take_documents-IsTaken ds (without u required) next v' rest in
        (
          (take_document-IsTaken required d v next one, All-map ds (weaken c u required) taken),
          (All-map ds (λ e k. not_gone _ u required k.required_type) taken, distinct),
        )

    -- If the provider accepts the evidence of a command, then the transient data holds as many documents
    -- as the command requires, of different types, each of a required type and from the system that the
    -- type requires; each is trusted, names the batch and the operation of the command, and neither it
    -- nor its source document nor its nonce was used before.
    pub document_evidence-IsTaken :
        (refs : EvidenceRefs) (v : Verified)
        → document_evidence p s t x c b refs ≡ ok v
        → (ds : List Bundle) × (documents_for p c.command t ≡ ok ds)
          × (length ds ≡ length (required_of c.command))
          × All (IsTaken c (required_of c.command)) ds
          × DistinctTypes ds
    unfolding document_evidence
    document_evidence-IsTaken refs v h = from_bind _ _ h λ config _ h₁. from_step _ _ h₁ λ _ h₂.
        from_bind _ _ h₂ λ ds decoded h₃. from_bind _ _ h₃ λ taken took _.
          let (all_taken, distinct) = take_documents-IsTaken ds _ no_evidence taken took in
          (ds, decoded, length-documents_for p t c.command ds decoded, all_taken, distinct)
