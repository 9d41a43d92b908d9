-- ===== src/Evidence/Bootstrap.antt =====
-- `bootstrap` of evidence.go: the source keys and the policy, written once.
pub mod Keys
pub mod Systems
use Prim.Native.String.{compare}
use text.Mathlib.Text.{is_le}
use agro_chain.Base.{
  String, Bool, true, false, not, ◌&&◌, ◌||◌, List, [], ◌∷◌, Option, none, some, eqb, length,
  contains, ◌==◌, ◌/=◌, if◌then◌else◌,
}
use agro_chain.Base.Int.{pos, ltz}
use agro_chain.Codes.{
  Result, ok, err, invalid_schema, configuration_already_exists, ◌>>=◌, ◌>>◌, fail_if,
}
use agro_chain.Text.{valid_id, reference}
use agro_chain.Model.{Bytes, SourceKey, Configuration, bootstrap as bootstrap_fn}
use agro_chain.Model.Evidence.{Policy}
use agro_chain.Json.{Items, nil, cons}
use agro_chain.Platform.{Platform, key, strict_json, as_object}
use agro_chain.Ledger.{Ledger, Op, WritePlan, put_value, absent, stage, plan_ops}
use agro_chain.Auth.{authorize}
use agro_chain.Step.{Execution}
use agro_chain.Evidence.{exact, encoded_exact, raw_url}
use agro_chain.Evidence.Types.{configuration_type, source_key_type}
use agro_chain.Evidence.Bundles.{as_array, member_of}

-- `types`: the document types of each source system.
unfoldable pub types_of : String → Option (List String)
types_of system =
    if system == "CKS"
    then some ("PRODUCER_ELIGIBILITY" ∷ [])
    else if system == "EFATURA"
    then some ("FREIGHT_INVOICE" ∷ "PURCHASE_INVOICE" ∷ [])
    else if system == "HKS"
    then some ("TRADE_NOTIFICATION" ∷ [])
    else if system == "UETDS"
    then some ("TRANSPORT_MANIFEST" ∷ [])
    else none

unfoldable pub same_texts : List String → List String → Bool
same_texts [] [] = true
same_texts (s ∷ ss) (t ∷ ts) = s == t && same_texts ss ts
same_texts _ _ = false

-- reflect.DeepEqual(k.DocumentTypes, types[k.SourceSystem]). Without a type list there is no equality:
-- a list that is nil is refused as a JSON null before.
unfoldable pub typed : SourceKey → Bool
typed k = elim (types_of k.source_system) [
  | none ↦ false
  | some ts ↦ same_texts k.document_types ts
]

-- The variables of the loop over the sources.
pub record Registry : Type 0 where
  pub seen : List String
  pub seen_keys : List String
  pub plan : WritePlan
  pub last : String

unfoldable pub bad_source : SourceKey → Registry → Bool
bad_source k r =
    k.schema_version /= "agrochain.source-key.v1"
    || not (reference k.issuer_id)
    || not (reference k.key_id)
    || not k.enabled
    || not (typed k)
    || contains k.source_system r.seen
    || is_le (compare k.source_system r.last)

unfoldable pub bad_configuration : Configuration → Bool
bad_configuration c =
    c.schema_version /= "agrochain.bootstrap.v1"
    || not (valid_id c.policy_id "CFG")
    || ltz c.threshold_bps (pos 0)
    || ltz (pos 100000) c.threshold_bps
    || not (eqb (length c.sources) 4)

unfoldable pub policy_of : Configuration → String → Policy
policy_of c tx_id = record {
  schema_version = "agrochain.price-policy.v1";
  policy_id = c.policy_id;
  rule_version = "price-increase-v1";
  threshold_bps = c.threshold_bps;
  currency = "TRY";
  tax_basis = "EXCLUDING_TAX";
  comparison = "STRICT_GREATER";
  created_tx_id = tx_id;
}

unfoldable pub answer_config : Configuration → Result (Unit {0}) → Result Configuration
answer_config c (ok _) = ok c
answer_config c (err e) = err e

module _ (p : Platform) where
  unfoldable pub add_source : String → SourceKey → Registry → Result Registry
  add_source tx_id k r = do
    let registry_key = key p "sourceKey" (k.issuer_id ∷ k.key_id ∷ [])
    fail_if (contains registry_key r.seen_keys) invalid_schema
    _ ← encoded_exact p p.source_key k (source_key_type p)
    fail_if (bad_source k r) invalid_schema
    _ ← raw_url p k.public_key 32
    plan ←
        put_value p p.source_record registry_key (record { source = k; created_tx_id = tx_id })
          r.plan
    ok (record {
      seen = k.source_system ∷ r.seen;
      seen_keys = registry_key ∷ r.seen_keys;
      plan = plan;
      last = k.source_system;
    })

  unfoldable pub add_sources : String → List SourceKey → Registry → Result Registry
  add_sources tx_id [] r = ok r
  add_sources tx_id (k ∷ ks) r = add_source tx_id k r >>= λ next. add_sources tx_id ks next

  -- The nested source objects hold no unknown fields.
  unfoldable pub check_sources : Items → Result (Unit {0})
  check_sources nil = ok tt
  check_sources (cons item items) =
      encoded_exact p p.value item (source_key_type p) >>= λ _. check_sources items

  unfoldable pub bootstrap_plan : Ledger → Execution → Bytes → Result (Configuration × WritePlan)
  bootstrap_plan s x raw = do
    authorize x.actor x.role bootstrap_fn
    absent s (key p "configuration" ("v1" ∷ [])) configuration_already_exists
    c ← exact p (configuration_type p) raw
    fail_if (bad_configuration c) invalid_schema
    r ← add_sources x.tx_id c.sources (record { seen = []; seen_keys = []; plan = []; last = "" })
    v ← strict_json p raw
    fields ← as_object p v
    items ← as_array (member_of "sources" fields)
    check_sources items
    plan₁ ← put_value p p.configuration (key p "configuration" ("v1" ∷ [])) c r.plan
    plan₂ ← put_value p p.policy (key p "policy" (c.policy_id ∷ [])) (policy_of c x.tx_id) plan₁
    ok (c, plan₂)

  unfoldable pub write_bootstrap :
      Ledger → Result (Configuration × WritePlan) → Result Configuration × List Op
  unfolding answer_config
  write_bootstrap s (err e) = (err e, [])
  write_bootstrap s (ok (c, plan)) =
      let written = stage s (plan_ops plan) in (answer_config c written.0, written.1)

  unfoldable pub bootstrap : Ledger → Execution → Bytes → Result Configuration × List Op
  unfolding write_bootstrap
  bootstrap s x raw = write_bootstrap s (bootstrap_plan s x raw)
