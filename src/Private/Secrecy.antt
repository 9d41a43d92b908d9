-- ===== src/Private/Secrecy.antt =====
-- Who learns what from the private collections (`mayRead` and the private reads).
use agro_chain.Model.Evidence.{EvaluationReference}
use agro_chain.Base.{
  ◌↔◌, if◌then◌else◌, not-eq-false, not, ◌⊎◌, String, Bool, true, List, [], ◌∷◌, ◌≡◌, refl, ap,
  arith, eq_iff, Bool-cases, inl, inr,
}
use agro_chain.Codes.{
  from_guard, ok, bind_ap, Result, private_data_access_denied, ◌>>=◌, ◌>>◌, fail_if,
}
use agro_chain.Model.{
  Batch, Bytes, Fn, EvidenceRefs, get_purchase, get_freight_cost, get_retail_report, get_anomaly,
  get_review_history,
}
use agro_chain.Platform.{Codec, Platform}
use agro_chain.Ledger.{load_bytes, Ledger, load}
use agro_chain.Evidence.{audit}
use agro_chain.Provider.{private_load}
use agro_chain.Private.{
  pending_answer, pos, PrivateAnswer, may_read, collection_of, review_action_of, review_actions,
  analysis_answer, analysis_query, private_answer, record_query, private_query,
}

-- Two ledgers that one reader cannot tell apart: they differ at most in collections that the reader
-- may not read.
pub record Alike (actor role : String) (s s' : Ledger) : Type 0 where
  pub reads : s.read ≡ s'.read
  pub pages : s.page ≡ s'.page
  pub shared :
      (collection : String)
      → may_read actor role collection ≡ true
      → s.read_private collection ≡ s'.read_private collection

module _ (p : Platform) (s s' : Ledger) (reads : s.read ≡ s'.read) where
  actions_alike :
      (anomaly_id : String) (vs : List Bytes)
      → s.read_private audit ≡ s'.read_private audit
      → review_actions p s anomaly_id vs ≡ review_actions p s' anomaly_id vs
  unfolding review_actions review_action_of private_load
  actions_alike anomaly_id [] same = refl
  actions_alike anomaly_id (v ∷ vs) same = rw (same, actions_alike anomaly_id vs same) refl

  analysis_alike :
      (fn : Fn) (anomaly_id : String)
      → s.page ≡ s'.page
      → s.read_private audit ≡ s'.read_private audit
      → analysis_answer p s fn anomaly_id ≡ analysis_answer p s' fn anomaly_id
  unfolding analysis_answer private_load
  analysis_alike get_anomaly anomaly_id pages same = rw same refl
  analysis_alike _ anomaly_id pages same =
      bind_ap _ _ _ _ (ap (λ f. f "reviewActionReference" (anomaly_id ∷ []) (pos 10) "") pages)
        (λ (entries : List Bytes × String).
          bind_ap _ _ _ _ (actions_alike anomaly_id entries.0 same) (λ actions. refl))

  load_alike :
      {A : Type 0} (codec : Codec A) (k : String) (dst : A)
      → load codec s k dst ≡ load codec s' k dst
  unfolding load
  load_alike codec k dst = ap (λ f. load_bytes codec (f k) dst) reads

  answer_alike :
      (fn : Fn) (refs : EvidenceRefs)
      → s.read_private (collection_of fn) ≡ s'.read_private (collection_of fn)
      → private_answer p s fn refs ≡ private_answer p s' fn refs
  unfolding private_answer private_load load collection_of
  answer_alike get_purchase refs same = rw (same, reads) refl
  answer_alike get_freight_cost refs same = rw same refl
  answer_alike get_retail_report refs same = rw same refl
  answer_alike _ refs same = refl

-- What follows a check of the reader.
module _ (a : Bool) where
  guarded_alike :
      {A : Type 0} (rest rest' : Result A)
      → (a ≡ true → rest ≡ rest')
      → (fail_if (not a) private_data_access_denied >> rest)
        ≡ (fail_if (not a) private_data_access_denied >> rest')
  unfolding ◌>>=◌ fail_if
  guarded_alike rest rest' h = elim (Bool-cases a) [ inl e ↦ rw e (h e) | inr e ↦ rw e refl ]

module _ (p : Platform) (s s' : Ledger) (actor role : String) (same : Alike actor role s s') where
  analysis_query_alike :
      (fn : Fn) (id : String)
      → analysis_query p s actor role fn id ≡ analysis_query p s' actor role fn id
  unfolding analysis_query
  analysis_query_alike fn id = guarded_alike _ _ _ λ allowed. bind_ap _ _ _ _ refl λ named.
      bind_ap _ _ _ _ (load_alike p s s' same.reads p.batch _ _) λ (batch : Bool × Batch).
        bind_ap _ _ _ _ refl λ exists.
          bind_ap _ _ _ _ (load_alike p s s' same.reads p.evaluation_reference _ _)
            (λ (ref : Bool × EvaluationReference).
              ap (λ r. if ref.0 then r else ok (pending_answer id))
                (analysis_alike p s s' same.reads fn ref.1.anomaly_id same.pages
                  (same.shared audit allowed)))

  record_query_alike :
      (fn : Fn) (id : String)
      → record_query p s actor role fn id ≡ record_query p s' actor role fn id
  unfolding record_query
  record_query_alike fn id = guarded_alike _ _ _ λ allowed. bind_ap _ _ _ _ refl λ named.
      bind_ap _ _ _ _ (load_alike p s s' same.reads p.batch _ _) λ (batch : Bool × Batch).
        bind_ap _ _ _ _ refl λ exists.
          bind_ap _ _ _ _ (load_alike p s s' same.reads p.refs _ _) (λ (refs : Bool × EvidenceRefs).
            answer_alike p s s' same.reads fn refs.1 (same.shared (collection_of fn) allowed))

  -- The answer or the error of a private query does not depend on the private collections that the
  -- caller may not read: two ledgers with the same public state and the same index pages that agree on
  -- the collections which the caller may read give the same result for every query and identifier.
  pub private_query_alike :
      (fn : Fn) (id : String)
      → private_query p s actor role fn id ≡ private_query p s' actor role fn id
  unfolding private_query
  private_query_alike get_anomaly id = analysis_query_alike get_anomaly id
  private_query_alike get_review_history id = analysis_query_alike get_review_history id
  private_query_alike fn id = record_query_alike fn id

-- The collection that a query reads.
abbrev pub source_of : Fn → String
source_of get_purchase = "tradePrivate"
source_of get_freight_cost = "freightPrivate"
source_of get_retail_report = "retailAuditPrivate"
source_of get_anomaly = "retailAuditPrivate"
source_of get_review_history = "retailAuditPrivate"
source_of _ = ""

-- The reader of a collection is the regulator as reviewer, auditor or oracle, the retailer, and for
-- purchases the producer, for freight costs the carrier.
abbrev pub Reader : String → String → String → Type 0
Reader actor role collection =
    ((actor ≡ "RegulatorMSP") × ((role ≡ "reviewer") ⊎ ((role ≡ "auditor") ⊎ (role ≡ "oracle"))))
    ⊎ (((actor ≡ "RetailerMSP") × (role ≡ "retailer"))
        ⊎ (((actor ≡ "ProducerMSP") × (role ≡ "producer") × (collection ≡ "tradePrivate"))
            ⊎ ((actor ≡ "LogisticsMSP") × (role ≡ "carrier") × (collection ≡ "freightPrivate"))))

-- Exactly the readers of a collection may read it.
pub may_read-Reader :
    (actor role collection : String)
    → (may_read actor role collection ≡ true) ↔ Reader actor role collection
unfolding may_read
may_read-Reader a r c = ground (
  arith,
  eq_iff a "RegulatorMSP",
  eq_iff a "RetailerMSP",
  eq_iff a "ProducerMSP",
  eq_iff a "LogisticsMSP",
  eq_iff r "reviewer",
  eq_iff r "auditor",
  eq_iff r "oracle",
  eq_iff r "retailer",
  eq_iff r "producer",
  eq_iff r "carrier",
  eq_iff c "tradePrivate",
  eq_iff c "freightPrivate",
  eq_iff "ProducerMSP" "RegulatorMSP",
  eq_iff "ProducerMSP" "RetailerMSP",
  eq_iff "LogisticsMSP" "RegulatorMSP",
  eq_iff "LogisticsMSP" "RetailerMSP",
  eq_iff "RetailerMSP" "RegulatorMSP",
)

-- The answer of a private query is only given to a reader of the collection that it is read from: the
-- purchases for GetPurchase, the freight costs for GetFreightCost and the audit records for the rest.
pub private_query-Reader :
    (p : Platform) (s : Ledger) (actor role : String) (fn : Fn) (id : String) (a : PrivateAnswer)
    → private_query p s actor role fn id ≡ ok a
    → Reader actor role (source_of fn)
unfolding private_query analysis_query record_query collection_of
private_query-Reader p s actor role get_anomaly id a h =
    from_guard _ _ _ h λ allowed _. (may_read-Reader _ _ _).0 (not-eq-false _ allowed)
private_query-Reader p s actor role get_review_history id a h =
    from_guard _ _ _ h λ allowed _. (may_read-Reader _ _ _).0 (not-eq-false _ allowed)
private_query-Reader p s actor role fn id a h =
    from_guard _ _ _ h λ allowed _. (may_read-Reader _ _ _).0 (not-eq-false _ allowed)
