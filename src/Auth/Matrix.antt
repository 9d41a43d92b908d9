-- ===== src/Auth/Matrix.antt =====
-- The authorisation matrix: exactly who passes `authorize`.
use mathlib.Core.Bool.{false≢true}
use agro_chain.Base.{
  inr, ◌∙◌, sym, subst, inl, Bool-cases, String, true, false, ◌≡◌, ◌≢◌, ◌↔◌, ◌⊎◌, refl, arith,
  contains, ◌==◌, eq_iff,
}
use agro_chain.Codes.{ok, err, wrong_transfer_recipient, unauthorized_organization, ◌>>=◌, fail_if}
use agro_chain.Text.{member}
use agro_chain.Model.{
  Fn, evaluate_price, open_review, resolve_review, bootstrap, create_batch, offer_pickup,
  accept_pickup, record_freight_cost, offer_delivery, accept_delivery, report_retail_price,
}
use agro_chain.Auth.{expected, wrong_actor, is_health, allowed, role_check, authorize}

-- The caller of a function that has an organisation and a role of its own.
abbrev IsCaller : String → String → String × String → Type 0
IsCaller actor role e = (actor ≡ e.0) × (role ≡ e.1)

-- The functions that name their caller: the commands, and Bootstrap.
abbrev pub HasCaller : Fn → Type 0
HasCaller fn = ((expected fn).0 == "") ≡ false

call :
    (a r m e : String) (fn : Fn)
    → expected fn ≡ (m, e)
    → is_health fn ≡ false
    → member m ≡ true
    → (m == "") ≡ false
    → (e == "") ≡ false
    → (authorize a r fn ≡ ok tt) ↔ IsCaller a r (m, e)
unfolding authorize role_check ◌>>=◌ fail_if
call a r m e fn q nh mm nm ne =
    rw (q, nh) (ground (arith, eq_iff a m, eq_iff r e, eq_iff r "", eq_iff m "", eq_iff e ""))

-- A command, or Bootstrap, is authorised exactly for the one organisation and the one role that its
-- table names, whatever other texts the two are.
pub authorize_command :
    (actor role : String) (fn : Fn)
    → HasCaller fn
    → (authorize actor role fn ≡ ok tt) ↔ IsCaller actor role (expected fn)
unfolding expected is_health member
authorize_command a r evaluate_price h = call a r _ _ evaluate_price refl refl refl refl refl
authorize_command a r open_review h = call a r _ _ open_review refl refl refl refl refl
authorize_command a r resolve_review h = call a r _ _ resolve_review refl refl refl refl refl
authorize_command a r bootstrap h = call a r _ _ bootstrap refl refl refl refl refl
authorize_command a r create_batch h = call a r _ _ create_batch refl refl refl refl refl
authorize_command a r offer_pickup h = call a r _ _ offer_pickup refl refl refl refl refl
authorize_command a r accept_pickup h = call a r _ _ accept_pickup refl refl refl refl refl
authorize_command a r record_freight_cost h =
    call a r _ _ record_freight_cost refl refl refl refl refl
authorize_command a r offer_delivery h = call a r _ _ offer_delivery refl refl refl refl refl
authorize_command a r accept_delivery h = call a r _ _ accept_delivery refl refl refl refl refl
authorize_command a r report_retail_price h =
    call a r _ _ report_retail_price refl refl refl refl refl
authorize_command a r _ h = ground arith

no_empty_role : (a : String) → contains "" (allowed a) ≡ false
unfolding allowed
no_empty_role a = ground arith

named_role : (a r : String) → contains r (allowed a) ≡ true → (r == "") ≡ false
named_role a r h = elim (Bool-cases (r == "")) [
  | inl e ↦
      let q : r ≡ "" = (eq_iff r "").0 e in
      let bad : contains "" (allowed a) ≡ true = subst (λ t. contains t (allowed a) ≡ true) q h in
      absurd (false≢true (sym (no_empty_role a) ∙ bad))
  | inr e ↦ e
]

member_of_allowed : (a r : String) → contains r (allowed a) ≡ true → member a ≡ true
unfolding allowed member
member_of_allowed a r h = ground arith

-- Every other function but Health is authorised exactly for the roles of the caller's organisation.
pub authorize_query :
    (actor role : String) (fn : Fn)
    → expected fn ≡ ("", "")
    → is_health fn ≡ false
    → (authorize actor role fn ≡ ok tt) ↔ (contains role (allowed actor) ≡ true)
unfolding authorize role_check ◌>>=◌ fail_if
authorize_query a r fn q nh = rw (q, nh) (ground (arith, named_role a r, member_of_allowed a r))

role_refusal : (a r e : String) → role_check a r e ≡ err wrong_transfer_recipient → ⊥
unfolding role_check ◌>>=◌ fail_if
role_refusal a r e h = ground arith

other_refusal :
    (a r : String) (fn : Fn)
    → wrong_actor fn ≡ unauthorized_organization
    → authorize a r fn ≡ err wrong_transfer_recipient
    → ⊥
unfolding authorize ◌>>=◌ fail_if
other_refusal a r fn e h = ground (arith, role_refusal a r (expected fn).1)

acceptance :
    (a r m e : String) (fn : Fn)
    → expected fn ≡ (m, e)
    → wrong_actor fn ≡ wrong_transfer_recipient
    → (m == "") ≡ false
    → (authorize a r fn ≡ err wrong_transfer_recipient) ↔ ((member a ≡ true) × (a ≢ m))
unfolding authorize ◌>>=◌ fail_if
acceptance a r m e fn q w n =
    rw (q, w) (ground (arith, role_refusal a r e, eq_iff a m, eq_iff m ""))

pub authorize-wrong_recipient :
    (actor role : String) (fn : Fn)
    → (authorize actor role fn ≡ err wrong_transfer_recipient) ↔ (
        (member actor ≡ true)
        × (((fn ≡ accept_pickup) × (actor ≢ "LogisticsMSP"))
            ⊎ ((fn ≡ accept_delivery) × (actor ≢ "RetailerMSP"))))
unfolding expected wrong_actor
authorize-wrong_recipient a r accept_pickup =
    let (to, from) = acceptance a r "LogisticsMSP" "carrier" accept_pickup refl refl refl in
    ground (arith, to, from)
authorize-wrong_recipient a r accept_delivery =
    let (to, from) = acceptance a r "RetailerMSP" "retailer" accept_delivery refl refl refl in
    ground (arith, to, from)
authorize-wrong_recipient a r _ = (
  (λ h. absurd (other_refusal a r _ refl h)),
  (λ (_, which). elim which [ inl (e, _) ↦ ground arith | inr (e, _) ↦ ground arith ]),
)
