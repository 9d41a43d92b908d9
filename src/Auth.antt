-- ===== src/Auth.antt =====
-- Who may call what (`authorize` in validation.go).
pub mod Matrix
use agro_chain.Base.{
  String, Bool, true, false, not, ◌&&◌, List, [], ◌∷◌, contains, ◌==◌, ◌/=◌, if◌then◌else◌,
}
use agro_chain.Codes.{
  Code, Result, ok, err, unauthorized_organization, unauthorized_role, wrong_transfer_recipient,
  ◌>>=◌, ◌>>◌, fail_if,
}
use agro_chain.Text.{member}
use agro_chain.Model.{
  Fn, evaluate_price, open_review, resolve_review, bootstrap, create_batch, offer_pickup,
  accept_pickup, record_freight_cost, offer_delivery, accept_delivery, report_retail_price, health,
  producer_msp, logistics_msp, retailer_msp, regulator_msp,
}

-- `expected, expectedRole`
unfoldable pub expected : Fn → String × String
expected evaluate_price = (regulator_msp, "oracle")
expected open_review = (regulator_msp, "reviewer")
expected resolve_review = (regulator_msp, "reviewer")
expected bootstrap = (regulator_msp, "admin")
expected create_batch = (producer_msp, "producer")
expected offer_pickup = (producer_msp, "producer")
expected accept_pickup = (logistics_msp, "carrier")
expected record_freight_cost = (logistics_msp, "carrier")
expected offer_delivery = (logistics_msp, "carrier")
expected accept_delivery = (retailer_msp, "retailer")
expected report_retail_price = (retailer_msp, "retailer")
expected _ = ("", "")

unfoldable pub wrong_actor : Fn → Code
wrong_actor accept_pickup = wrong_transfer_recipient
wrong_actor accept_delivery = wrong_transfer_recipient
wrong_actor _ = unauthorized_organization

unfoldable pub is_health : Fn → Bool
is_health health = true
is_health _ = false

-- The roles of an organisation, for the functions that expect no role of their own.
unfoldable pub allowed : String → List String
allowed actor =
    if actor == producer_msp
    then "producer" ∷ []
    else if actor == logistics_msp
    then "carrier" ∷ []
    else if actor == retailer_msp
    then "retailer" ∷ []
    else if actor == regulator_msp
    then "reviewer" ∷ "auditor" ∷ "oracle" ∷ "public-reader" ∷ []
    else []

unfoldable pub role_check : String → String → String → Result (Unit {0})
role_check actor role expected_role = do
  fail_if (role == "") unauthorized_role
  fail_if (expected_role /= "" && role /= expected_role) unauthorized_role
  fail_if (expected_role == "" && not (contains role (allowed actor))) unauthorized_role

unfoldable pub authorize : String → String → Fn → Result (Unit {0})
authorize actor role fn = do
  fail_if (not (member actor)) unauthorized_organization
  fail_if ((expected fn).0 /= "" && actor /= (expected fn).0) (wrong_actor fn)
  if is_health fn then ok tt else role_check actor role (expected fn).1
