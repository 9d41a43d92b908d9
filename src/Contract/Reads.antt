-- ===== src/Contract/Reads.antt =====
-- Which proposals stage writes (`Invoke` of contract.go).
use agro_chain.Base.{String, false, ◌||◌, List, [], ◌∷◌, ◌≡◌, refl, arith}
use agro_chain.Codes.{Result, ok, err}
use agro_chain.Model.{Fn, get_configuration}
use agro_chain.Platform.{Platform, Codec}
use agro_chain.Ledger.{Ledger}
use agro_chain.Auth.{authorize}
use agro_chain.Contract.{is_mutation}
use agro_chain.Contract.Dispatch.{
  Proposal, Reply, reading, route, dispatch, Call, is_bootstrap, proposal_of, invoke_as, invoke,
}

module _ (p : Platform) (s : Ledger) (release : String) where
  pub route-reads :
      (msp role : String) (fn : Fn) (args : List String) (request : List Proposal)
      → (is_mutation fn || is_bootstrap fn) ≡ false
      → (route p s release msp role fn args request).1 ≡ []
  unfolding route reading is_mutation is_bootstrap
  route-reads msp role get_configuration [] request h = refl
  route-reads msp role get_configuration (a ∷ more) request h = refl
  route-reads msp role _ args request h = ground arith

  dispatch-reads :
      (msp role : String) (fn : Fn) (args : List String) (request : List Proposal)
      → (is_mutation fn || is_bootstrap fn) ≡ false
      → (dispatch p s release msp role fn args request).1 ≡ []
  unfolding dispatch
  dispatch-reads msp role fn args request h = go (authorize msp role fn) refl
    where
      go :
          (a : Result (Unit {0}))
          → authorize msp role fn ≡ a
          → (dispatch p s release msp role fn args request).1 ≡ []
      go (err e) q = rw (q, dispatch) refl
      go (ok done) q = rw (q, dispatch) (route-reads msp role fn args request h)

  -- A proposal for any function but Bootstrap and the ten commands stages nothing on the stub, whatever
  -- it answers: no write, no deletion, no private data and no event.
  pub invoke-reads :
      (codec : Codec Reply) (call : Call)
      → (is_mutation call.function || is_bootstrap call.function) ≡ false
      → (invoke p s codec release call).1 ≡ []
  unfolding invoke invoke_as
  invoke-reads codec call h = go (proposal_of call)
    where
      go : (r : Result (String × String × Proposal)) → (invoke_as p s codec release call r).1 ≡ []
      go (err e) = refl
      go (ok (msp, role, r)) = dispatch-reads msp role call.function call.args (r ∷ []) h
