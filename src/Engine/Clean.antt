-- ===== src/Engine/Clean.antt =====
-- Plans that hold no key of the kinds that the common end of `apply` writes.
use agro_chain.Base.{
  subst, String, true, false, List, [], Option, none, some, ◌≡◌, ◌∙◌, refl, arith, ◌==◌, eq_iff,
  contains, Bool-cases, inl, inr,
}
use agro_chain.Codes.{ok, from_bind, ok-injective}
use agro_chain.Model.{Bytes}
use agro_chain.Platform.{Platform, Codec, key}
use agro_chain.Ledger.{WritePlan, assign, planned, put_value}
use agro_chain.Ledger.Plan.{planned-assign}
use agro_chain.Engine.Written.{KeyLaw, reserved, key-ne}

reserved-ne :
    (k kind : String)
    → contains k reserved ≡ false
    → contains kind reserved ≡ true
    → (k == kind) ≡ false
reserved-ne k kind other named = elim (Bool-cases (k == kind)) [
  | inl e ↦
      let same : k ≡ kind = (eq_iff k kind).0 e in
      let bad : contains k reserved ≡ true = rw same named in absurd (ground arith)
  | inr e ↦ e
]

module _ (p : Platform) where
  -- No key of those kinds is planned.
  pub record IsClean (plan : WritePlan) : Type 0 where
    pub free :
        (kind : String) (attrs : List String)
        → contains kind reserved ≡ true
        → planned (key p kind attrs) plan ≡ none

  pub empty-IsClean : IsClean []
  unfolding planned
  empty-IsClean = record { free = λ kind attrs named. refl }

  module _ (law : KeyLaw p) where
    pub assign-IsClean :
        (k : String) (attrs : List String) (v : Option Bytes) (plan : WritePlan)
        → contains k reserved ≡ false
        → IsClean plan
        → IsClean (assign (key p k attrs) v plan)
    assign-IsClean k attrs v plan other h = record {
      free = λ kind attrs' named.
          planned-assign (key p k attrs) (key p kind attrs') v plan
          ∙ rw (key-ne p law k kind attrs attrs' (reserved-ne k kind other named))
              (h.free kind attrs' named);
    }

    pub put_value-IsClean :
        {A : Type 0} (codec : Codec A) (k : String) (attrs : List String) (v : A)
        (plan plan' : WritePlan)
        → contains k reserved ≡ false
        → IsClean plan
        → put_value p codec (key p k attrs) v plan ≡ ok plan'
        → IsClean plan'
    unfolding put_value
    put_value-IsClean codec k attrs v plan plan' other h e =
        from_bind _ _ e
          λ b _ e₁. subst IsClean (ok-injective e₁) (assign-IsClean k attrs (some b) plan other h)
