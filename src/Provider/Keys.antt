-- ===== src/Provider/Keys.antt =====
-- The keys that the provider of private.go plans, against those of the common end of `apply`.
use agro_chain.Base.{
  contains, String, Bool, true, false, List, [], ◌∷◌, ◌≡◌, refl, subst, ap, ◌==◌, if◌then◌else◌,
  ◌∙◌,
}
use agro_chain.Codes.{Code, Result, ok, from_bind, from_guard, from_step, ok-injective}
use agro_chain.Model.{
  Fn, Command, Batch, EvidenceRefs, Configuration, evaluate_price, open_review, resolve_review,
  report_retail_price,
}
use agro_chain.Model.Evidence.{Bundle}
use agro_chain.Platform.{Platform, Codec, key}
use agro_chain.Ledger.{Ledger, WritePlan}
use agro_chain.Step.{Execution, Verified}
use agro_chain.Provider.{without, Transient, no_evidence, add_private, use_once, record_uses}
use agro_chain.Provider.Claims.{
  eligibility_claim, purchase_claim, notification_claim, manifest_claim, freight_claim, claim,
}
use agro_chain.Provider.Review.{evaluate_price_evidence, review_evidence}
use agro_chain.Provider.Prepare.{
  take_document, take_documents, retail_evidence, report_evidence, document_evidence, prepare_for,
  prepare,
}
use agro_chain.Engine.Written.{KeyLaw, Respects, reserved}
use agro_chain.Engine.Clean.{IsClean, empty-IsClean, put_value-IsClean}

-- The public plan of evidence.
abbrev public_of : Verified → WritePlan
public_of v = v.public

add_private-public :
    (p : Platform) {A : Type 0} (codec : Codec A) (collection k : String) (value : A)
    (v v' : Verified)
    → add_private p codec collection k value v ≡ ok v'
    → v.public ≡ v'.public
unfolding add_private
add_private-public p codec collection k value v v' h =
    from_bind _ _ h λ raw _ h₁. ap public_of (ok-injective h₁)

module _ (p : Platform) (c : Command) (x : Execution) (b : Batch) (d : Bundle) where
  eligibility_claim-public :
      (v v' : Verified) → eligibility_claim p c x b d v ≡ ok v' → v.public ≡ v'.public
  unfolding eligibility_claim
  eligibility_claim-public v v' h = from_bind _ _ h λ _ _ h₁.
      from_guard _ _ _ h₁ λ _ h₂. from_guard _ _ _ h₂ λ _ h₃. ap public_of (ok-injective h₃)

  purchase_claim-public :
      (v v' : Verified) → purchase_claim p c x b d v ≡ ok v' → v.public ≡ v'.public
  unfolding purchase_claim
  purchase_claim-public v v' h =
      from_bind _ _ h λ _ _ h₁. from_guard _ _ _ h₁ λ _ h₂. add_private-public p _ _ _ _ _ v' h₂

  notification_claim-public :
      (v v' : Verified) → notification_claim p c x b d v ≡ ok v' → v.public ≡ v'.public
  unfolding notification_claim
  notification_claim-public v v' h = from_bind _ _ h λ _ _ h₁.
      from_guard _ _ _ h₁ λ _ h₂. from_guard _ _ _ h₂ λ _ h₃. ap public_of (ok-injective h₃)

  manifest_claim-public :
      (v v' : Verified) → manifest_claim p c x b d v ≡ ok v' → v.public ≡ v'.public
  unfolding manifest_claim
  manifest_claim-public v v' h =
      from_bind _ _ h λ _ _ h₁. from_guard _ _ _ h₁ λ _ h₂. ap public_of (ok-injective h₂)

  freight_claim-public :
      (t : Transient) (v v' : Verified) → freight_claim p c x b d t v ≡ ok v' → v.public ≡ v'.public
  unfolding freight_claim
  freight_claim-public t v v' h = from_bind _ _ h λ _ _ h₁. from_guard _ _ _ h₁ λ _ h₂.
      from_bind _ _ h₂ λ salt _ h₃. from_bind _ _ h₃ λ costed one h₄.
        add_private-public p _ _ _ _ _ costed one ∙ add_private-public p _ _ _ _ costed v' h₄

  -- A test on the document type picks one of two claims.
  choose :
      (test : Bool) (first rest : Result Verified) (v v' : Verified)
      → (first ≡ ok v' → v.public ≡ v'.public)
      → (rest ≡ ok v' → v.public ≡ v'.public)
      → (if test then first else rest) ≡ ok v'
      → v.public ≡ v'.public
  choose true first rest v v' f g h = f h
  choose false first rest v v' f g h = g h

  -- No claim touches the public plan.
  claim-public :
      (t : Transient) (v v' : Verified) → claim p c x b d t v ≡ ok v' → v.public ≡ v'.public
  unfolding claim
  claim-public t v v' =
      choose (d.envelope.header.document_type == "PRODUCER_ELIGIBILITY") _ _ v v'
        (eligibility_claim-public v v')
        (choose (d.envelope.header.document_type == "PURCHASE_INVOICE") _ _ v v'
          (purchase_claim-public v v')
          (choose (d.envelope.header.document_type == "TRADE_NOTIFICATION") _ _ v v'
            (notification_claim-public v v')
            (choose (d.envelope.header.document_type == "TRANSPORT_MANIFEST") _ _ v v'
              (manifest_claim-public v v')
              (choose (d.envelope.header.document_type == "FREIGHT_INVOICE") _ (ok v) v v'
                (freight_claim-public t v v') (λ h. ap public_of (ok-injective h))))))

module _ (p : Platform) (law : KeyLaw p) (s : Ledger) where
  module _ (c : Command) (x : Execution) where
    use_once-IsClean :
        (kind : String) (attrs : List String) (code : Code) (plan plan' : WritePlan)
        → contains kind reserved ≡ false
        → IsClean p plan
        → use_once p s c x (key p kind attrs) code plan ≡ ok plan'
        → IsClean p plan'
    unfolding use_once
    use_once-IsClean kind attrs code plan plan' other clean h = from_step _ _ h λ _ h₁.
        from_step _ _ h₁ λ _ h₂. put_value-IsClean p law _ kind attrs _ plan plan' other clean h₂

    record_uses-IsClean :
        (d : Bundle) (plan plan' : WritePlan)
        → IsClean p plan
        → record_uses p s c x d plan ≡ ok plan'
        → IsClean p plan'
    unfolding record_uses
    record_uses-IsClean d plan plan' clean h = from_bind _ _ h λ p₁ e₁ h₁.
        from_bind _ _ h₁ λ p₂ e₂ h₂. from_bind _ _ h₂ λ p₃ e₃ e₄.
          let c₁ = use_once-IsClean "document" _ _ plan p₁ refl clean e₁ in
          let c₂ = use_once-IsClean "sourceUse" _ _ p₁ p₂ refl c₁ e₂ in
          let c₃ = use_once-IsClean "nonceUse" _ _ p₂ p₃ refl c₂ e₃ in
          put_value-IsClean p law _ "document" _ _ p₃ plan' refl c₃ e₄

  module _ (t : Transient) (x : Execution) where
    abbrev Keeps : Verified → Verified → Type 0
    Keeps v v' = IsClean p v.public → IsClean p v'.public

    take_document-Keeps :
        (c : Command) (b : Batch) (required : List (String × String)) (d : Bundle) (v v' : Verified)
        → take_document p s t x c b required d v ≡ ok v'
        → Keeps v v'
    unfolding take_document
    take_document-Keeps c b required d v v' h clean = from_guard _ _ _ h λ _ h₁.
        from_step _ _ h₁ λ _ h₂. from_guard _ _ _ h₂ λ _ h₃. from_bind _ _ h₃ λ plan used h₄.
          subst (IsClean p) (claim-public p c x b d t (record v { public = plan }) v' h₄)
            (record_uses-IsClean c x d v.public plan clean used)

    take_documents-Keeps :
        (c : Command) (b : Batch) (required : List (String × String)) (ds : List Bundle)
        (v v' : Verified)
        → take_documents p s t x c b required ds v ≡ ok v'
        → Keeps v v'
    unfolding take_documents
    take_documents-Keeps c b required [] v v' h clean =
        subst (IsClean p) (ap public_of (ok-injective h)) clean
    take_documents-Keeps c b required (d ∷ ds) v v' h clean = from_bind _ _ h λ next one rest.
        take_documents-Keeps c b (without d.envelope.header.document_type required) ds next v' rest
          (take_document-Keeps c b required d v next one clean)

    retail_evidence-public :
        (config : Configuration) (c : Command) (b : Batch) (refs : EvidenceRefs) (v v' : Verified)
        → retail_evidence p s t x config c b refs v ≡ ok v'
        → v.public ≡ v'.public
    unfolding retail_evidence
    retail_evidence-public config c b refs v v' h = from_bind _ _ h λ _ _ h₁.
        from_guard _ _ _ h₁ λ _ h₂. from_bind _ _ h₂ λ _ _ h₃. from_bind _ _ h₃ λ _ _ h₄.
          from_bind _ _ h₄
            λ _ _ h₅. from_guard _ _ _ h₅ λ _ h₆. add_private-public p _ _ _ _ _ v' h₆

    report_evidence-public :
        (fn : Fn) (config : Configuration) (c : Command) (b : Batch) (refs : EvidenceRefs)
        (v v' : Verified)
        → report_evidence p s t x fn config c b refs v ≡ ok v'
        → v.public ≡ v'.public
    unfolding report_evidence
    report_evidence-public report_retail_price config c b refs v v' h =
        retail_evidence-public config c b refs v v' h
    report_evidence-public _ config c b refs v v' h = ap public_of (ok-injective h)

    document_evidence-IsClean :
        (c : Command) (b : Batch) (refs : EvidenceRefs) (v : Verified)
        → document_evidence p s t x c b refs ≡ ok v
        → IsClean p v.public
    unfolding document_evidence
    document_evidence-IsClean c b refs v h = from_bind _ _ h λ config _ h₁. from_step _ _ h₁ λ _ h₂.
        from_bind _ _ h₂ λ documents _ h₃. from_bind _ _ h₃ λ taken took h₄.
          subst (IsClean p) (report_evidence-public c.command config c b refs taken v h₄)
            (take_documents-Keeps c b _ documents no_evidence taken took (empty-IsClean p))

    evaluate_price_evidence-IsClean :
        (c : Command) (b : Batch) (refs : EvidenceRefs) (v : Verified)
        → evaluate_price_evidence p s t c x b refs ≡ ok v
        → IsClean p v.public
    unfolding evaluate_price_evidence
    evaluate_price_evidence-IsClean c b refs v h = from_guard _ _ _ h λ _ h₁.
        from_guard _ _ _ h₁ λ _ h₂. from_guard _ _ _ h₂ λ _ h₃. from_guard _ _ _ h₃ λ _ h₄.
          from_step _ _ h₄ λ _ h₅. from_step _ _ h₅ λ _ h₆. from_bind _ _ h₆ λ a _ h₇.
            from_bind _ _ h₇ λ p₁ e₁ h₈. from_bind _ _ h₈ λ p₂ e₂ h₉.
              subst (IsClean p) (add_private-public p _ _ _ _ _ v h₉) (
                put_value-IsClean p law _ "anomalyReference" _ _ p₁ p₂ refl
                  (put_value-IsClean p law _ "evaluation" _ _ [] p₁ refl (empty-IsClean p) e₁) e₂)

    review_evidence-IsClean :
        (c : Command) (b : Batch) (is_resolve : Bool) (v : Verified)
        → review_evidence p s t c x b is_resolve ≡ ok v
        → IsClean p v.public
    unfolding review_evidence
    review_evidence-IsClean c b is_resolve v h = from_guard _ _ _ h λ _ h₁.
        from_guard _ _ _ h₁ λ _ h₂. from_bind _ _ h₂ λ _ _ h₃. from_guard _ _ _ h₃ λ _ h₄.
          from_bind _ _ h₄ λ _ _ h₅. from_guard _ _ _ h₅ λ _ h₆. from_bind _ _ h₆ λ _ _ h₇.
            from_guard _ _ _ h₇ λ _ h₈. from_bind _ _ h₈ λ _ _ h₉. from_guard _ _ _ h₉ λ _ g₁.
              from_bind _ _ g₁ λ _ _ g₂. from_bind _ _ g₂ λ acted _ g₃.
                from_bind _ _ g₃ λ plan e g₄.
                  subst (IsClean p) (add_private-public p _ _ _ _ _ v g₄) (
                    put_value-IsClean p law _ "reviewActionReference" _ _ [] plan refl
                      (empty-IsClean p) e)

    prepare_for-IsClean :
        (fn : Fn) (c : Command) (b : Batch) (refs : EvidenceRefs) (v : Verified)
        → prepare_for p s t x fn c b refs ≡ ok v
        → IsClean p v.public
    unfolding prepare_for
    prepare_for-IsClean evaluate_price c b refs v h = evaluate_price_evidence-IsClean c b refs v h
    prepare_for-IsClean open_review c b refs v h = review_evidence-IsClean c b false v h
    prepare_for-IsClean resolve_review c b refs v h = review_evidence-IsClean c b true v h
    prepare_for-IsClean _ c b refs v h = document_evidence-IsClean c b refs v h

    -- Whatever the transient data and the ledger are, the public writes that `realEvidence` adds to a
    -- command avoid every key of the kinds batch, batchEvidence, operation, history, owner and state.
    pub prepare-Respects : Respects p (prepare p s t x)
    unfolding prepare
    prepare-Respects = record {
      avoids = λ c b refs v kind attrs h named.
          (prepare_for-IsClean c.command c b refs v h).free kind attrs named;
    }
