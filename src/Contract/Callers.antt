-- ===== src/Contract/Callers.antt =====
-- Who is behind a proposal that has an effect (`Invoke` of contract.go).
use agro_chain.Base.{
  sym, ◌∙◌, String, [], Option, none, some, ◌≡◌, ◌≢◌, ◌⊎◌, inl, inr, refl, ap, arith,
}
use agro_chain.Codes.{Code, Result, ok, err, from_bind, ok-injective, err-ne-ok}
use agro_chain.Model.{Bytes}
use agro_chain.Platform.{Platform, Codec}
use agro_chain.Ledger.{Ledger}
use agro_chain.Auth.{authorize}
use agro_chain.Contract.Dispatch.{
  Proposal, Reply, dispatch, Call, Response, success, failure, required, proposal_of, respond,
  invoke_as, invoke,
}

required-ok : {A : Type 0} (o : Option A) (c : Code) (a : A) → required o c ≡ ok a → o ≡ some a
unfolding required
required-ok none c a h = absurd (err-ne-ok h)
required-ok (some v) c a h = ap some (ok-injective h)

proposal_of-known :
    (call : Call) (msp role : String) (r : Proposal)
    → proposal_of call ≡ ok (msp, role, r)
    → (call.msp ≡ some msp) × (call.role ≡ some role)
unfolding proposal_of
proposal_of-known call msp role r h = from_bind _ _ h λ m known h₁. from_bind _ _ h₁ λ q held h₂.
    from_bind _ _ h₂ λ x _ h₃. from_bind _ _ h₃ λ t _ h₄.
      let same = ok-injective h₄ in
      (
        required-ok _ _ _ known ∙ ap (λ (z : String × String × Proposal). some z.0) same,
        required-ok _ _ _ held ∙ ap (λ (z : String × String × Proposal). some z.1) same,
      )

-- The caller of a proposal, as the identity of the peer tells it.
pub record Caller (call : Call) : Type 0 where
  pub msp : String
  pub role : String
  pub known : call.msp ≡ some msp
  pub held : call.role ≡ some role
  pub authorized : authorize msp role call.function ≡ ok tt

failed : (e : Code) (b : Bytes) (z : Response) → z ≡ failure e → z ≡ success b → ⊥
failed e b z f g = let bad : failure e ≡ success b = sym f ∙ g in ground arith

module _ (p : Platform) (s : Ledger) (codec : Codec Reply) (release : String) (call : Call) where
  -- A proposal that is answered with success, or that stages anything at all, comes from a caller whose
  -- organisation and role the identity told and who is authorised for the function.
  pub invoke-Caller :
      (b : Bytes)
      → ((invoke p s codec release call).0 ≡ success b) ⊎ ((invoke p s codec release call).1 ≢ [])
      → Caller call
  unfolding invoke invoke_as dispatch respond
  invoke-Caller b effect = go (proposal_of call) refl effect
    where
      inner :
          (msp role : String) (r : Proposal) (a : Result (Unit {0}))
          → authorize msp role call.function ≡ a
          → ((invoke_as p s codec release call (ok (msp, role, r))).0 ≡ success b)
            ⊎ ((invoke_as p s codec release call (ok (msp, role, r))).1 ≢ [])
          → authorize msp role call.function ≡ ok tt
      inner msp role r (ok done) q k = q
      inner msp role r (err e) q (inl h) = absurd (failed e b _ (rw (q, dispatch) refl) h)
      inner msp role r (err e) q (inr ne) = absurd (ne (rw (q, dispatch) refl))

      go :
          (z : Result (String × String × Proposal))
          → proposal_of call ≡ z
          → ((invoke_as p s codec release call z).0 ≡ success b)
            ⊎ ((invoke_as p s codec release call z).1 ≢ [])
          → Caller call
      go (err e) q (inl h) = absurd (failed e b _ refl h)
      go (err e) q (inr ne) = absurd (ne refl)
      go (ok (msp, role, r)) q k =
          let (known, held) = proposal_of-known call msp role r q in
          record {
            msp = msp;
            role = role;
            known = known;
            held = held;
            authorized = inner msp role r (authorize msp role call.function) refl k;
          }
