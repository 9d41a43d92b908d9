-- ===== src/Evidence/Bootstrap/Systems.antt =====
-- The sources that `bootstrap` accepts: one of each system, in their order.
use Prim.Native.String.{compare}
use text.Mathlib.Text.{is_le}
use agro_chain.Base.{
  not, ℕ, ◌≤◌, ◌<◌, String, true, false, List, [], ◌∷◌, map, ◌≡◌, ◌⊎◌, inl, inr, ◌∙◌, refl, sym,
  subst, ap, arith, ◌==◌, eq_iff, or-eq-false, not-eq-false, length, if◌then◌else◌, eqb,
}
use agro_chain.Codes.{ok, from_bind, from_guard, from_step, ok-injective}
use agro_chain.Model.{Bytes, SourceKey, Configuration}
use agro_chain.Platform.{Platform}
use agro_chain.Ledger.{Ledger, WritePlan}
use agro_chain.Step.{Execution}
use agro_chain.Evidence.Bootstrap.{
  types_of, typed, Registry, bad_source, bad_configuration, add_source, add_sources, bootstrap_plan,
}

abbrev IsSystem : String → Type 0
IsSystem s = (s ≡ "CKS") ⊎ ((s ≡ "EFATURA") ⊎ ((s ≡ "HKS") ⊎ (s ≡ "UETDS")))

abbrev place : String → ℕ
place s = if s == "CKS" then 1 else if s == "EFATURA" then 2 else if s == "HKS" then 3 else 4

abbrev nth_system : ℕ → String
nth_system n =
    if eqb n 1 then "CKS" else if eqb n 2 then "EFATURA" else if eqb n 3 then "HKS" else "UETDS"

typed-IsSystem : (k : SourceKey) → typed k ≡ true → IsSystem k.source_system
unfolding typed types_of
typed-IsSystem k h = ground (
  arith,
  eq_iff k.source_system "CKS",
  eq_iff k.source_system "EFATURA",
  eq_iff k.source_system "HKS",
  eq_iff k.source_system "UETDS",
)

place-range : (s : String) → (1 ≤ place s) × (place s ≤ 4)
place-range s = ground arith

nth_system-place : (s : String) → IsSystem s → s ≡ nth_system (place s)
nth_system-place s (inl e) = rw e refl
nth_system-place s (inr (inl e)) = rw e refl
nth_system-place s (inr (inr (inl e))) = rw e refl
nth_system-place s (inr (inr (inr e))) = rw e refl

-- Later in the order of texts is later among the systems.
later : (a b : String) → IsSystem a → IsSystem b → is_le (compare a b) ≡ false → place b < place a
later a b (inl e) (inl f) = rw (e, f) (λ h. ground arith)
later a b (inl e) (inr (inl f)) = rw (e, f) (λ h. ground arith)
later a b (inl e) (inr (inr (inl f))) = rw (e, f) (λ h. ground arith)
later a b (inl e) (inr (inr (inr f))) = rw (e, f) (λ h. ground arith)
later a b (inr (inl e)) (inl f) = rw (e, f) (λ h. ground arith)
later a b (inr (inl e)) (inr (inl f)) = rw (e, f) (λ h. ground arith)
later a b (inr (inl e)) (inr (inr (inl f))) = rw (e, f) (λ h. ground arith)
later a b (inr (inl e)) (inr (inr (inr f))) = rw (e, f) (λ h. ground arith)
later a b (inr (inr (inl e))) (inl f) = rw (e, f) (λ h. ground arith)
later a b (inr (inr (inl e))) (inr (inl f)) = rw (e, f) (λ h. ground arith)
later a b (inr (inr (inl e))) (inr (inr (inl f))) = rw (e, f) (λ h. ground arith)
later a b (inr (inr (inl e))) (inr (inr (inr f))) = rw (e, f) (λ h. ground arith)
later a b (inr (inr (inr e))) (inl f) = rw (e, f) (λ h. ground arith)
later a b (inr (inr (inr e))) (inr (inl f)) = rw (e, f) (λ h. ground arith)
later a b (inr (inr (inr e))) (inr (inr (inl f))) = rw (e, f) (λ h. ground arith)
later a b (inr (inr (inr e))) (inr (inr (inr f))) = rw (e, f) (λ h. ground arith)

-- Systems that go up from a text.
abbrev Ascending : String → List SourceKey → Type 0
Ascending last [] = Unit
Ascending last (k ∷ ks) =
    IsSystem k.source_system
    × (is_le (compare k.source_system last) ≡ false)
    × Ascending k.source_system ks

four :
    (ks : List SourceKey)
    → length ks ≡ 4
    → Ascending "" ks
    → map (λ (k : SourceKey). k.source_system) ks ≡ "CKS" ∷ "EFATURA" ∷ "HKS" ∷ "UETDS" ∷ []
four [] n h = absurd (omega arith)
four (k ∷ []) n h = absurd (omega arith)
four (k ∷ l ∷ []) n h = absurd (omega arith)
four (k ∷ l ∷ m ∷ []) n h = absurd (omega arith)
four (k ∷ l ∷ m ∷ o ∷ q ∷ more) n h = absurd (omega arith)
four (k ∷ l ∷ m ∷ o ∷ []) n (sk, up, (sl, up_l, (sm, up_m, (so, up_o, done)))) =
    let a = later l.source_system k.source_system sl sk up_l in
    let b = later m.source_system l.source_system sm sl up_m in
    let c = later o.source_system m.source_system so sm up_o in
    let low = (place-range k.source_system).0 in
    let high = (place-range o.source_system).1 in
    let pk : place k.source_system ≡ 1 = omega arith in
    let pl : place l.source_system ≡ 2 = omega arith in
    let pm : place m.source_system ≡ 3 = omega arith in
    let po : place o.source_system ≡ 4 = omega arith in
    rw
      (
        nth_system-place k.source_system sk ∙ ap nth_system pk,
        nth_system-place l.source_system sl ∙ ap nth_system pl,
        nth_system-place m.source_system sm ∙ ap nth_system pm,
        nth_system-place o.source_system so ∙ ap nth_system po,
      )
      refl

exactly_four : (ks : List SourceKey) → not (eqb (length ks) 4) ≡ false → length ks ≡ 4
exactly_four ks h = ground arith

module _ (p : Platform) where
  add_source-Ascending :
      (tx_id : String) (k : SourceKey) (r r' : Registry)
      → add_source p tx_id k r ≡ ok r'
      → IsSystem k.source_system
        × (is_le (compare k.source_system r.last) ≡ false)
        × (k.source_system ≡ r'.last)
  unfolding add_source bad_source
  add_source-Ascending tx_id k r r' h = from_guard _ _ _ h λ _ h₁. from_bind _ _ h₁ λ _ _ h₂.
      from_guard _ _ _ h₂ λ bad h₃. from_bind _ _ h₃ λ _ _ h₄. from_bind _ _ h₄ λ plan _ h₅.
        let (rest, up) = or-eq-false _ _ bad in
        let (front, seen) = or-eq-false _ _ rest in
        let (_, untyped) = or-eq-false _ _ front in
        (
          typed-IsSystem k (not-eq-false _ untyped),
          up,
          ap (λ (z : Registry). z.last) (ok-injective h₅),
        )

  add_sources-Ascending :
      (tx_id : String) (ks : List SourceKey) (r r' : Registry)
      → add_sources p tx_id ks r ≡ ok r'
      → Ascending r.last ks
  unfolding add_sources
  add_sources-Ascending tx_id [] r r' h = tt
  add_sources-Ascending tx_id (k ∷ ks) r r' h = from_bind _ _ h λ next one rest.
      let (system, up, last) = add_source-Ascending tx_id k r next one in
      (
        system,
        up,
        subst (λ z. Ascending z ks) (sym last) (add_sources-Ascending tx_id ks next r' rest),
      )

  -- The configuration that `bootstrap` writes has exactly four sources, one for each of the systems
  -- CKS, EFATURA, HKS and UETDS, in that order.
  pub bootstrap_plan-systems :
      (s : Ledger) (x : Execution) (raw : Bytes) (c : Configuration) (plan : WritePlan)
      → bootstrap_plan p s x raw ≡ ok (c, plan)
      → map (λ (k : SourceKey). k.source_system) c.sources
        ≡ "CKS" ∷ "EFATURA" ∷ "HKS" ∷ "UETDS" ∷ []
  unfolding bootstrap_plan bad_configuration
  bootstrap_plan-systems s x raw c plan h = from_step _ _ h λ _ h₁. from_step _ _ h₁ λ _ h₂.
      from_bind _ _ h₂ λ c' _ h₃. from_guard _ _ _ h₃ λ bad h₄. from_bind _ _ h₄ λ r added h₅.
        from_bind _ _ h₅ λ _ _ h₆. from_bind _ _ h₆ λ _ _ h₇. from_bind _ _ h₇ λ _ _ h₈.
          from_step _ _ h₈ λ _ h₉. from_bind _ _ h₉ λ _ _ g₁. from_bind _ _ g₁ λ _ _ g₂.
            subst
              (λ (z : Configuration × WritePlan).
                map (λ (k : SourceKey). k.source_system) z.0.sources
                ≡ "CKS" ∷ "EFATURA" ∷ "HKS" ∷ "UETDS" ∷ [])
              (ok-injective g₂)
              (four c'.sources (exactly_four c'.sources (or-eq-false _ _ bad).1)
                (add_sources-Ascending x.tx_id c'.sources _ r added))
