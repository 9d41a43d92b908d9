-- ===== src/Evidence/Bootstrap/Keys.antt =====
-- What the commit of `bootstrap` leaves alone.
use agro_chain.Base.{String, true, List, [], ◌∷◌, ◌≡◌, ◌∙◌, refl, subst, ap, contains}
use agro_chain.Codes.{Result, ok, err, from_bind, from_guard, from_step, ok-injective, err-ne-ok}
use agro_chain.Model.{Bytes, SourceKey, Configuration}
use agro_chain.Platform.{Platform, key}
use agro_chain.Ledger.{Ledger, WritePlan, plan_ops}
use agro_chain.Ledger.Plan.{committed, after_plan, stage-all, committed-plan_ops}
use agro_chain.Step.{Execution}
use agro_chain.Evidence.Bootstrap.{
  Registry, answer_config, add_source, add_sources, bootstrap_plan, write_bootstrap, bootstrap,
}
use agro_chain.Engine.Clean.{IsClean, empty-IsClean, put_value-IsClean}
use agro_chain.Engine.Written.{KeyLaw, reserved}

module _ (p : Platform) (law : KeyLaw p) where
  add_source-IsClean :
      (tx_id : String) (k : SourceKey) (r r' : Registry)
      → IsClean p r.plan
      → add_source p tx_id k r ≡ ok r'
      → IsClean p r'.plan
  unfolding add_source
  add_source-IsClean tx_id k r r' clean h = from_guard _ _ _ h λ _ h₁. from_bind _ _ h₁ λ _ _ h₂.
      from_guard _ _ _ h₂ λ _ h₃. from_bind _ _ h₃ λ _ _ h₄. from_bind _ _ h₄ λ plan e h₅.
        subst (IsClean p) (ap (λ (z : Registry). z.plan) (ok-injective h₅))
          (put_value-IsClean p law _ "sourceKey" _ _ r.plan plan refl clean e)

  add_sources-IsClean :
      (tx_id : String) (ks : List SourceKey) (r r' : Registry)
      → IsClean p r.plan
      → add_sources p tx_id ks r ≡ ok r'
      → IsClean p r'.plan
  unfolding add_sources
  add_sources-IsClean tx_id [] r r' clean h =
      subst (IsClean p) (ap (λ (z : Registry). z.plan) (ok-injective h)) clean
  add_sources-IsClean tx_id (k ∷ ks) r r' clean h = from_bind _ _ h λ next one rest.
      add_sources-IsClean tx_id ks next r' (add_source-IsClean tx_id k r next clean one) rest

  bootstrap_plan-IsClean :
      (s : Ledger) (x : Execution) (raw : Bytes) (z : Configuration × WritePlan)
      → bootstrap_plan p s x raw ≡ ok z
      → IsClean p z.1
  unfolding bootstrap_plan
  bootstrap_plan-IsClean s x raw z h = from_step _ _ h λ _ h₁. from_step _ _ h₁ λ _ h₂.
      from_bind _ _ h₂ λ c _ h₃. from_guard _ _ _ h₃ λ _ h₄. from_bind _ _ h₄ λ r added h₅.
        from_bind _ _ h₅ λ _ _ h₆. from_bind _ _ h₆ λ _ _ h₇. from_bind _ _ h₇ λ _ _ h₈.
          from_step _ _ h₈ λ _ h₉. from_bind _ _ h₉ λ p₁ e₁ g₁. from_bind _ _ g₁ λ p₂ e₂ g₂.
            subst (IsClean p) (ap (λ (y : Configuration × WritePlan). y.1) (ok-injective g₂)) (
              put_value-IsClean p law _ "policy" _ _ p₁ p₂ refl
                (put_value-IsClean p law _ "configuration" _ _ r.plan p₁ refl
                  (add_sources-IsClean x.tx_id c.sources _ r (empty-IsClean p) added) e₁)
                e₂)

  -- The commit of a bootstrap that succeeds writes no batch, no operation and no index entry.
  pub bootstrap-frame :
      (s : Ledger) (x : Execution) (raw : Bytes) (c : Configuration) (w : String → Bytes)
      (kind : String) (attrs : List String)
      → contains kind reserved ≡ true
      → (bootstrap p s x raw).0 ≡ ok c
      → committed (bootstrap p s x raw).1 w (key p kind attrs) ≡ w (key p kind attrs)
  unfolding bootstrap write_bootstrap answer_config
  bootstrap-frame s x raw c w kind attrs named h =
      go (bootstrap_plan p s x raw) (bootstrap_plan-IsClean s x raw) h
    where
      staged : (o : Result (Unit {0})) (a : Configuration) → answer_config a o ≡ ok c → o ≡ ok tt
      staged (ok _) a e = refl
      staged (err z) a e = absurd (err-ne-ok e)

      go :
          (r : Result (Configuration × WritePlan))
          → ((z : Configuration × WritePlan) → r ≡ ok z → IsClean p z.1)
          → (write_bootstrap p s r).0 ≡ ok c
          → committed (write_bootstrap p s r).1 w (key p kind attrs) ≡ w (key p kind attrs)
      go (err e) clean h' = absurd (err-ne-ok h')
      go (ok (a, plan)) clean h' =
          ap (λ os. committed os w (key p kind attrs)) (stage-all s (plan_ops plan) (staged _ a h'))
          ∙ committed-plan_ops plan w (key p kind attrs)
          ∙ ap (λ o. after_plan o (w (key p kind attrs)))
              ((clean (a, plan) refl).free kind attrs named)
