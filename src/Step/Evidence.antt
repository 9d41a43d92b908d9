-- ===== src/Step/Evidence.antt =====
-- The money and the documents of a pickup.
use agro_chain.Base.{
  ℕ, ◌*◌, ◌≤◌, ◌<◌, ◌^◌, String, Bool, true, false, ◌&&◌, List, [], ◌∷◌, Option, none, some, ◌≡◌,
  ◌≢◌, refl, sym, ap, subst, arith, All, ◌==◌, eq_iff, ◌∙◌, not-eq-false,
}
use agro_chain.Base.Int.{ℤ, pos, negsuc, ltz, lez, eqz, eqz→eq, mul64, wrap64, ◌*ℤ◌}
use agro_chain.Codes.{
  ok, from_bind, from_guard, from_step, ok-injective, err-ne-ok, document_already_used,
}
use agro_chain.Text.{valid_id}
use agro_chain.Model.{Command}
use agro_chain.Platform.{Platform, key}
use agro_chain.Ledger.{Ledger, WritePlan, planned, absent, put_value, assign}
use agro_chain.Ledger.Plan.{planned-assign}
use agro_chain.Step.{Verified, valid_purchase}
use agro_chain.Step.Documents.{not_planned, consume_document, consume_documents}

-- A purchase in exact arithmetic: the total in thousandths is the price times the quantity.
pub record IsPurchase (v : Verified) : Type 0 where
  pub quantity : ℕ
  pub price : ℕ
  pub total : ℕ
  pub quantity_eq : v.quantity ≡ pos quantity
  pub price_eq : v.purchase_price ≡ pos price
  pub total_eq : v.purchase_total ≡ pos total
  pub quantity_range : (0 < quantity) × (quantity ≤ 100000000)
  pub price_range : (0 < price) × (price ≤ 1000000000)
  pub total_range : (0 < total) × (total ≤ 1000000000000)
  pub currency : v.currency ≡ "TRY"
  pub tax_basis : v.tax_basis ≡ "EXCLUDING_TAX"
  pub exact : price * quantity ≡ total * 1000

product64 : (a b : ℕ) → a * b < 2 ^ 63 → mul64 (pos a) (pos b) ≡ pos (a * b)
unfolding mul64 ◌*ℤ◌ wrap64
product64 a b h = ground arith

in_bounds :
    (z : ℤ) (m : ℕ)
    → ltz (pos 0) z ≡ true
    → lez z (pos m) ≡ true
    → (n : ℕ) × (z ≡ pos n) × (0 < n) × (n ≤ m)
in_bounds (pos n) m lo hi = (n, refl, ground arith, ground arith)
in_bounds (negsuc n) m lo hi = ground arith

nine :
    (a b c d e f g h i : Bool)
    → (a && b && c && d && e && f && g && h && i) ≡ true
    → (a ≡ true)
      × (b ≡ true)
      × (c ≡ true)
      × (d ≡ true)
      × (e ≡ true)
      × (f ≡ true)
      × (g ≡ true)
      × (h ≡ true)
      × (i ≡ true)
nine a b c d e f g h i t = ground arith

-- The Boolean tests of `valid_purchase` as one list.
purchase_tests :
    (v : Verified)
    → valid_purchase v ≡ true
    → (ltz (pos 0) v.quantity ≡ true)
      × (lez v.quantity (pos 100000000) ≡ true)
      × (ltz (pos 0) v.purchase_price ≡ true)
      × (lez v.purchase_price (pos 1000000000) ≡ true)
      × (ltz (pos 0) v.purchase_total ≡ true)
      × (lez v.purchase_total (pos 1000000000000) ≡ true)
      × ((v.currency == "TRY") ≡ true)
      × ((v.tax_basis == "EXCLUDING_TAX") ≡ true)
      × (eqz (mul64 v.purchase_price v.quantity) (mul64 v.purchase_total (pos 1000)) ≡ true)
unfolding valid_purchase
purchase_tests v h =
    nine (ltz (pos 0) v.quantity) (lez v.quantity (pos 100000000)) (ltz (pos 0) v.purchase_price)
      (lez v.purchase_price (pos 1000000000)) (ltz (pos 0) v.purchase_total)
      (lez v.purchase_total (pos 1000000000000)) (v.currency == "TRY")
      (v.tax_basis == "EXCLUDING_TAX")
      (eqz (mul64 v.purchase_price v.quantity) (mul64 v.purchase_total (pos 1000))) h

mul_eq : {a b c d : ℤ} → a ≡ b → c ≡ d → mul64 a c ≡ mul64 b d
mul_eq p q = rw (p, q) refl

pos-injective : {a b : ℕ} → pos a ≡ pos b → a ≡ b
pos-injective h = ground arith

-- A purchase that `validPurchase` accepts is a positive, bounded purchase in TRY without tax whose price
-- times quantity is the total times 1000 as numbers: neither int64 product wraps.
pub valid_purchase-IsPurchase : (v : Verified) → valid_purchase v ≡ true → IsPurchase v
valid_purchase-IsPurchase v h =
    let (q₁, q₂, p₁, p₂, t₁, t₂, cur, tax, eq) = purchase_tests v h in
    let (q, qe, q_lo, q_hi) = in_bounds v.quantity 100000000 q₁ q₂ in
    let (p, pe, p_lo, p_hi) = in_bounds v.purchase_price 1000000000 p₁ p₂ in
    let (t, te, t_lo, t_hi) = in_bounds v.purchase_total 1000000000000 t₁ t₂ in
    let small : p * q ≤ 100000000000000000 = grind arith in
    record {
      quantity = q;
      price = p;
      total = t;
      quantity_eq = qe;
      price_eq = pe;
      total_eq = te;
      quantity_range = (q_lo, q_hi);
      price_range = (p_lo, p_hi);
      total_range = (t_lo, t_hi);
      currency = (eq_iff _ _).0 cur;
      tax_basis = (eq_iff _ _).0 tax;
      exact = pos-injective (
          sym (product64 p q (omega arith))
          ∙ sym (mul_eq pe qe)
          ∙ eqz→eq _ _ eq
          ∙ ap (λ z. mul64 z (pos 1000)) te
          ∙ product64 t 1000 (omega arith));
    }

-- Each text differs from all behind it.
abbrev pub Distinct : List String → Type 0
Distinct [] = Unit
Distinct (a ∷ rest') = All (λ b. a ≢ b) rest' × Distinct rest'

unplanned : (o : Option (Option (List ℕ))) → not_planned o ≡ ok tt → o ≡ none
unfolding not_planned
unplanned none h = refl
unplanned (some v) h = absurd (err-ne-ok h)

module _ (p : Platform) (s : Ledger) (c : Command) where
  abbrev use_key : String → String
  use_key id = key p "documentReference" (id ∷ [])

  -- A document that may be consumed: a document identifier that no earlier operation has used.
  abbrev pub IsFresh : String → Type 0
  IsFresh id =
      (valid_id id "DOC" ≡ true)
      × (absent s (key p "documentReference" (id ∷ [])) document_already_used ≡ ok tt)

  -- One document: it was fresh and not planned, it is planned then, and no key of the plan is lost.
  abbrev IsConsumed : String → WritePlan → WritePlan → Type 0
  IsConsumed id plan next =
      IsFresh id
      × (planned (use_key id) plan ≡ none)
      × (planned (use_key id) next ≢ none)
      × ((j : String) → planned j plan ≢ none → planned j next ≢ none)

  kept :
      (k j : String) (v : Option (List ℕ)) (plan : WritePlan)
      → (planned j plan ≢ none)
      → planned j (assign k v plan) ≢ none
  kept k j v plan h e = split (k == j) refl
    where
      split : (b : Bool) → (k == j) ≡ b → ⊥
      split true q =
          let there : planned j (assign k v plan) ≡ some v =
            planned-assign k j v plan ∙ rw q refl in
          ground arith
      split false q = h (sym (planned-assign k j v plan ∙ rw q refl) ∙ e)

  consume_document-IsConsumed :
      (id : String) (plan next : WritePlan)
      → consume_document p s c id plan ≡ ok next
      → IsConsumed id plan next
  unfolding consume_document put_value
  consume_document-IsConsumed id plan next h = from_guard _ _ _ h λ valid h₁.
      from_step _ _ h₁ λ unused h₂. from_step _ _ h₂ λ gone put. from_bind _ _ put λ b e h₃.
        let there : planned (use_key id) next ≡ some (some b) =
          ap (planned (use_key id)) (sym (ok-injective h₃))
          ∙ planned-assign (use_key id) (use_key id) (some b) plan
          ∙ rw ((eq_iff (use_key id) (use_key id)).1 refl) refl in
        (
          (not-eq-false _ valid, gone),
          unplanned _ unused,
          λ none_there. ground arith,
          λ j was.
              subst (λ q. planned j q ≢ none) (ok-injective h₃)
                (kept (use_key id) j (some b) plan was),
        )

  others :
      (id : String) (ids : List String) (plan plan' : WritePlan)
      → planned (use_key id) plan ≢ none
      → consume_documents p s c ids plan ≡ ok plan'
      → All (λ b. id ≢ b) ids
  unfolding consume_documents
  others id [] plan plan' was h = tt
  others id (b ∷ ids) plan plan' was h = from_bind _ _ h λ next one rest.
      let (fresh, unused, used, keeps) = consume_document-IsConsumed b plan next one in
      (
        λ e. was (ap (λ t. planned (use_key t) plan) e ∙ unused),
        others id ids next plan' (keeps (use_key id) was) rest,
      )

  -- The documents that one command consumes are all fresh, and no two of them are the same.
  pub consume_documents-Distinct :
      (ids : List String) (plan plan' : WritePlan)
      → consume_documents p s c ids plan ≡ ok plan'
      → All IsFresh ids × Distinct ids
  unfolding consume_documents
  consume_documents-Distinct [] plan plan' h = (tt, tt)
  consume_documents-Distinct (id ∷ ids) plan plan' h = from_bind _ _ h λ next one rest.
      let (fresh, unused, used, keeps) = consume_document-IsConsumed id plan next one in
      let (all_fresh, distinct) = consume_documents-Distinct ids next plan' rest in
      ((fresh, all_fresh), (others id ids next plan' used rest, distinct))
