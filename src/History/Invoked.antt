-- ===== src/History/Invoked.antt =====
-- The proposals of contract.go as steps of a history: `Invoke` implements the step relation.
use agro_chain.Base.{String, List, [], ◌∷◌, ◌≡◌, ◌∙◌, refl, ap, arith}
use agro_chain.Codes.{Code, Result, ok, err, err-ne-ok}
use agro_chain.Model.{
  Bytes, Fn, Command, create_batch, offer_pickup, accept_pickup, record_freight_cost,
  offer_delivery, accept_delivery, report_retail_price, evaluate_price, open_review, resolve_review,
  bootstrap,
}
use agro_chain.Platform.{Platform, Codec}
use agro_chain.Ledger.{Ledger}
use agro_chain.Ledger.Plan.{committed}
use agro_chain.Auth.{authorize}
use agro_chain.Engine.Written.{KeyLaw}
use agro_chain.Provider.Prepare.{prepare}
use agro_chain.Provider.Keys.{prepare-Respects}
use agro_chain.Contract.{is_mutation}
use agro_chain.Contract.Reads.{route-reads}
use agro_chain.Contract.Dispatch.{
  Proposal, Reply, Staged, replied, dispatch_bootstrap, command_of, run_command, route, dispatch,
  Call, success, failure, is_bootstrap, proposal_of, respond, invoke_as, invoke,
}
use agro_chain.History.{World, Serves, Step, accepted, configured, unchanged}

failure-ne-success : (e : Code) (b : Bytes) → failure e ≡ success b → ⊥
failure-ne-success e b h = ground arith

replied-ok :
    {A : Type 0} (f : A → Reply) (r : Result A) (reply : Reply)
    → replied f r ≡ ok reply
    → (a : A) × (r ≡ ok a)
unfolding replied
replied-ok f (ok a) reply h = (a, refl)
replied-ok f (err e) reply h = absurd (err-ne-ok h)

respond-success :
    (p : Platform) (codec : Codec Reply) (r : Result Reply) (b : Bytes)
    → respond p codec r ≡ success b
    → (reply : Reply) × (r ≡ ok reply)
unfolding respond
respond-success p codec (err e) b h = absurd (failure-ne-success e b h)
respond-success p codec (ok reply) b h = (reply, refl)

module _ (p : Platform) (law : KeyLaw p) (s : Ledger) (w w' : World) (serves : Serves s w) where
  -- The commit of what was staged, for an operation that answered.
  abbrev Commits : Staged → Type 0
  Commits z =
      (reply : Reply) → z.0 ≡ ok reply → ((k : String) → w' k ≡ committed z.1 w k) → Step p w w'

  command-Commits : (m : Result (Command × Proposal)) → Commits (run_command p s m)
  unfolding run_command
  command-Commits (err e) reply h done = absurd (err-ne-ok h)
  command-Commits (ok (c, r)) reply h done =
      let (receipt, given) = replied-ok _ _ reply h in
      accepted s (prepare p s r.transient r.x) c r.x receipt w w' serves
        (prepare-Respects p law s r.transient r.x) given done

  bootstrap-Commits :
      (args : List String) (request : List Proposal) → Commits (dispatch_bootstrap p s args request)
  unfolding dispatch_bootstrap
  bootstrap-Commits [] request reply h done = absurd (err-ne-ok h)
  bootstrap-Commits (a ∷ b ∷ more) request reply h done = absurd (err-ne-ok h)
  bootstrap-Commits (a ∷ []) [] reply h done = absurd (err-ne-ok h)
  bootstrap-Commits (a ∷ []) (r ∷ q ∷ more) reply h done = absurd (err-ne-ok h)
  bootstrap-Commits (a ∷ []) (r ∷ []) reply h done = go r.transient refl reply h done
    where
      go :
          (t : List (String × Bytes))
          → r.transient ≡ t
          → Commits (dispatch_bootstrap p s (a ∷ []) (r ∷ []))
      go [] e reply' h' done' =
          let (c, given) = replied-ok _ _ reply' (rw (e, dispatch_bootstrap) at h') in
          configured s r.x (p.bytes_of a) c w w' serves given (rw (e, dispatch_bootstrap) at done')
      go (z ∷ zs) e reply' h' done' = absurd (err-ne-ok (rw (e, dispatch_bootstrap) at h'))

  route-Commits :
      (release msp role : String) (fn : Fn) (args : List String) (request : List Proposal)
      → Commits (route p s release msp role fn args request)
  unfolding route is_mutation is_bootstrap
  route-Commits release msp role create_batch args request =
      command-Commits (command_of p s create_batch args request)
  route-Commits release msp role offer_pickup args request =
      command-Commits (command_of p s offer_pickup args request)
  route-Commits release msp role accept_pickup args request =
      command-Commits (command_of p s accept_pickup args request)
  route-Commits release msp role record_freight_cost args request =
      command-Commits (command_of p s record_freight_cost args request)
  route-Commits release msp role offer_delivery args request =
      command-Commits (command_of p s offer_delivery args request)
  route-Commits release msp role accept_delivery args request =
      command-Commits (command_of p s accept_delivery args request)
  route-Commits release msp role report_retail_price args request =
      command-Commits (command_of p s report_retail_price args request)
  route-Commits release msp role evaluate_price args request =
      command-Commits (command_of p s evaluate_price args request)
  route-Commits release msp role open_review args request =
      command-Commits (command_of p s open_review args request)
  route-Commits release msp role resolve_review args request =
      command-Commits (command_of p s resolve_review args request)
  route-Commits release msp role bootstrap args request = bootstrap-Commits args request
  route-Commits release msp role fn args request = λ reply h done. unchanged w w' λ k.
      done k ∙ ap (λ os. committed os w k) (route-reads p s release msp role fn args request refl)

  dispatch-Commits :
      (release msp role : String) (fn : Fn) (args : List String) (request : List Proposal)
      → Commits (dispatch p s release msp role fn args request)
  unfolding dispatch
  dispatch-Commits release msp role fn args request = go (authorize msp role fn) refl
    where
      go :
          (a : Result (Unit {0}))
          → authorize msp role fn ≡ a
          → Commits (dispatch p s release msp role fn args request)
      go (err e) q reply h done = absurd (err-ne-ok (rw (q, dispatch) at h))
      go (ok one) q reply h done =
          route-Commits release msp role fn args request reply (rw (q, dispatch) at h)
            (rw (q, dispatch) at done)

  -- The contract implements the step relation: if the peer gets a success for a proposal that read a
  -- world state, whatever the function, the arguments and the transient data are, then the commit of
  -- what the proposal staged is a step of the history. So what holds along histories holds of the
  -- contract.
  pub invoke-Step :
      (codec : Codec Reply) (release : String) (call : Call) (b : Bytes)
      → (invoke p s codec release call).0 ≡ success b
      → ((k : String) → w' k ≡ committed (invoke p s codec release call).1 w k)
      → Step p w w'
  unfolding invoke invoke_as
  invoke-Step codec release call b = go (proposal_of call)
    where
      go :
          (r : Result (String × String × Proposal))
          → (invoke_as p s codec release call r).0 ≡ success b
          → ((k : String) → w' k ≡ committed (invoke_as p s codec release call r).1 w k)
          → Step p w w'
      go (err e) h done = absurd (failure-ne-success e b h)
      go (ok (msp, role, r)) h done =
          let (reply, given) = respond-success p codec _ b h in
          dispatch-Commits release msp role call.function call.args (r ∷ []) reply given done
