-- ===== src/Contract/Dispatch.antt =====
-- `dispatch` and `Invoke` of contract.go: which operation a proposal runs, and what the peer gets.
use agro_chain.Base.{
  String, Bool, true, false, not, ◌||◌, List, [], ◌∷◌, Option, none, some, if◌then◌else◌,
}
use agro_chain.Codes.{
  Code, Result, ok, err, invalid_schema, invalid_identifier, document_not_found, missing_evidence,
  unauthorized_organization, unauthorized_role, ◌>>=◌, ◌>>◌, fail_if,
}
use agro_chain.Text.{valid_id}
use agro_chain.Model.{
  Bytes, Fn, Command, Configuration, Receipt, create_batch, offer_pickup, accept_pickup,
  record_freight_cost, offer_delivery, accept_delivery, report_retail_price, evaluate_price,
  open_review, resolve_review, bootstrap, get_configuration, get_document, get_purchase,
  get_freight_cost, get_retail_report, get_anomaly, get_review_history, verify_document,
}
use agro_chain.Model.Zero.{zero_time}
use agro_chain.Model.Evidence.{Envelope}
use agro_chain.Model.Evidence.Zero.{zero_envelope}
use agro_chain.Platform.{Platform, Codec, key, canonical}
use agro_chain.Ledger.{Ledger, Op, load}
use agro_chain.Auth.{authorize}
use agro_chain.Payload.{parse_command}
use agro_chain.Step.{Execution}
use agro_chain.Engine.{apply}
use agro_chain.Query.{Answer, get_config, query}
use agro_chain.Provider.{Transient}
use agro_chain.Provider.Prepare.{prepare}
use agro_chain.Private.{PrivateAnswer, private_query, verify_opening}
use agro_chain.Evidence.Bootstrap.{bootstrap as write_configuration}
use agro_chain.Contract.{Timestamp, is_mutation, execution_from_stub}

-- `proposal`
pub record Proposal : Type 0 where
  pub x : Execution
  pub transient : Transient

-- What an operation answers.
pub data Reply : Type 0 where
  configuration_reply : Configuration → Reply
  envelope_reply : Envelope → Reply
  private_reply : PrivateAnswer → Reply
  receipt_reply : Receipt → Reply
  query_reply : Answer → Reply

-- The reply and the operations that were staged.
abbrev pub Staged : Type 0
Staged = Result Reply × List Op

unfoldable pub replied : {A : Type 0} → (A → Reply) → Result A → Result Reply
replied reply (ok a) = ok (reply a)
replied reply (err e) = err e

-- An operation that stages nothing.
unfoldable pub reading : {A : Type 0} → (A → Reply) → Result A → Staged
reading reply r = (replied reply r, [])

module _ (p : Platform) (s : Ledger) where
  unfoldable pub dispatch_bootstrap : List String → List Proposal → Staged
  dispatch_bootstrap (a ∷ []) (r ∷ []) = elim r.transient [
    | [] ↦
        let done = write_configuration p s r.x (p.bytes_of a) in
        (replied configuration_reply done.0, done.1)
    | e ∷ es ↦ (err invalid_schema, [])
  ]
  dispatch_bootstrap _ _ = (err invalid_schema, [])

  unfoldable pub find_document : List String → Result Envelope
  find_document (id ∷ []) = do
    fail_if (not (valid_id id "DOC")) invalid_identifier
    found ← load p.envelope s (key p "document" (id ∷ [])) zero_envelope
    fail_if (not found.0) document_not_found
    ok found.1
  find_document _ = err invalid_identifier

  unfoldable pub dispatch_private :
      String → String → Fn → List String → List Proposal → Result PrivateAnswer
  dispatch_private msp role verify_document (id ∷ []) (r ∷ []) = do
    fail_if (not s.has_private) invalid_schema
    verify_opening p s msp role id r.transient
  dispatch_private msp role fn (id ∷ []) (r ∷ []) = do
    fail_if (not s.has_private) invalid_schema
    elim r.transient [ [] ↦ private_query p s msp role fn id | e ∷ es ↦ err invalid_schema ]
  dispatch_private msp role fn _ _ = err invalid_schema

  unfoldable pub one_request : List Proposal → Result Proposal
  one_request (r ∷ []) = do fail_if (not s.has_private) missing_evidence; ok r
  one_request _ = err missing_evidence

  -- The command that is run, and the proposal that it is run with.
  unfoldable pub command_of : Fn → List String → List Proposal → Result (Command × Proposal)
  command_of fn (a ∷ []) request = do
    c ← parse_command p fn (p.bytes_of a)
    config ← get_config p s
    r ← one_request request
    ok (c, r)
  command_of fn _ request = err invalid_schema

  unfoldable pub run_command : Result (Command × Proposal) → Staged
  run_command (err e) = (err e, [])
  run_command (ok (c, r)) =
      let done = apply p s (prepare p s r.transient r.x) c r.x in
      (replied receipt_reply done.0, done.1)

  -- The `switch` of `dispatch`.
  unfoldable pub route : String → String → String → Fn → List String → List Proposal → Staged
  route release msp role bootstrap args request = dispatch_bootstrap args request
  route release msp role get_configuration [] request = reading configuration_reply (get_config p s)
  route release msp role get_configuration (a ∷ more) request = (err invalid_schema, [])
  route release msp role get_document args request = reading envelope_reply (find_document args)
  route release msp role get_purchase args request =
      reading private_reply (dispatch_private msp role get_purchase args request)
  route release msp role get_freight_cost args request =
      reading private_reply (dispatch_private msp role get_freight_cost args request)
  route release msp role get_retail_report args request =
      reading private_reply (dispatch_private msp role get_retail_report args request)
  route release msp role get_anomaly args request =
      reading private_reply (dispatch_private msp role get_anomaly args request)
  route release msp role get_review_history args request =
      reading private_reply (dispatch_private msp role get_review_history args request)
  route release msp role verify_document args request =
      reading private_reply (dispatch_private msp role verify_document args request)
  route release msp role create_batch args request =
      run_command (command_of create_batch args request)
  route release msp role offer_pickup args request =
      run_command (command_of offer_pickup args request)
  route release msp role accept_pickup args request =
      run_command (command_of accept_pickup args request)
  route release msp role record_freight_cost args request =
      run_command (command_of record_freight_cost args request)
  route release msp role offer_delivery args request =
      run_command (command_of offer_delivery args request)
  route release msp role accept_delivery args request =
      run_command (command_of accept_delivery args request)
  route release msp role report_retail_price args request =
      run_command (command_of report_retail_price args request)
  route release msp role evaluate_price args request =
      run_command (command_of evaluate_price args request)
  route release msp role open_review args request =
      run_command (command_of open_review args request)
  route release msp role resolve_review args request =
      run_command (command_of resolve_review args request)
  route release msp role fn args request = reading query_reply (query p s release msp fn args)

  unfoldable pub dispatch : String → String → String → Fn → List String → List Proposal → Staged
  dispatch release msp role fn args request = elim (authorize msp role fn) [
    | err e ↦ (err e, [])
    | ok done ↦ route release msp role fn args request
  ]

-- What the stub and the client identity tell of a proposal: `none` is an error, for `msp` of
-- `cid.New` or of GetMSPID.
pub record Call : Type 0 where
  pub msp : Option String
  pub role : Option String
  pub function : Fn
  pub args : List String
  pub timestamp : Option Timestamp
  pub tx_id : String
  pub transient : Option Transient

pub data Response : Type 0 where
  success : Bytes → Response
  failure : Code → Response

unfoldable pub required : {A : Type 0} → Option A → Code → Result A
required none code = err code
required (some a) code = ok a

unfoldable pub is_bootstrap : Fn → Bool
is_bootstrap bootstrap = true
is_bootstrap _ = false

-- Who calls, as whom, and the proposal.
unfoldable pub proposal_of : Call → Result (String × String × Proposal)
proposal_of call = do
  msp ← required call.msp unauthorized_organization
  role ← required call.role unauthorized_role
  x ←
      (if is_mutation call.function || is_bootstrap call.function
        then execution_from_stub call.timestamp call.tx_id msp role
        else ok (record { actor = msp; role = role; tx_id = ""; time = zero_time }))
  transient ← required call.transient invalid_schema
  ok (msp, role, record { x = x; transient = transient })

-- `canonical` of the reply.
unfoldable pub respond : Platform → Codec Reply → Result Reply → Response
respond p codec (err e) = failure e
respond p codec (ok reply) = elim (canonical p codec reply) [ err e ↦ failure e | ok b ↦ success b ]

module _ (p : Platform) (s : Ledger) (codec : Codec Reply) (release : String) (call : Call) where
  unfoldable pub invoke_as : Result (String × String × Proposal) → Response × List Op
  invoke_as (err e) = (failure e, [])
  invoke_as (ok (msp, role, r)) =
      let done = dispatch p s release msp role call.function call.args (r ∷ []) in
      (respond p codec done.0, done.1)

  -- `Contract.Invoke`
  unfoldable pub invoke : Response × List Op
  invoke = invoke_as (proposal_of call)
