-- ===== src/Payload/Bounds.antt =====
-- What a validated payload and a parsed command hold.
use agro_chain.Base.{
  true, false, ◌||◌, ◌≡◌, refl, subst, arith, eq_of_not-ne, or-eq-false, not-eq-false, ◌≤◌, ℕ,
}
use agro_chain.Base.Int.{ℤ, pos, negsuc, ltz}
use agro_chain.Codes.{ok, from_bind, from_guard, from_step, ok-injective, guard_last}
use agro_chain.Text.{valid_id}
use agro_chain.Text.Decimal.{valid_date}
use agro_chain.Model.{
  Bytes, Fn, Command, CreateInput, ReportInput, create_batch, report_retail_price, logistics_msp,
  retailer_msp,
}
use agro_chain.Model.Zero.{zero_create, zero_report}
use agro_chain.Platform.{Platform}
use agro_chain.Platform.Decode.{decode-eq-ok}
use agro_chain.Payload.{
  bad_quantity, valid_region, check_create, check_report, check_command, validate, validate_payload,
  parse_command, fn_name,
}

-- The input of a CreateBatch that is accepted.
pub record IsCreate (i : CreateInput) : Type 0 where
  pub quantity : bad_quantity i.quantity_grams ≡ false
  pub product : i.product_code ≡ "TOMATO"
  pub grade : i.grade_code ≡ "STANDARD"
  pub logistics : i.logistics_msp ≡ logistics_msp
  pub retailer : i.intended_retailer_msp ≡ retailer_msp
  pub region : valid_region i.origin_region_code ≡ true
  pub date : valid_date i.harvest_date ≡ true

check_create-IsCreate : (i : CreateInput) → check_create i ≡ ok tt → IsCreate i
unfolding check_create
check_create-IsCreate i h = from_guard _ _ _ h λ quantity h₁. from_guard _ _ _ h₁ λ fixed h₂.
    from_guard _ _ _ h₂ λ region h₃. record {
      quantity = quantity;
      product = eq_of_not-ne _ _ (or-eq-false _ _ (or-eq-false _ _ (or-eq-false _ _ fixed).0).0).0;
      grade = eq_of_not-ne _ _ (or-eq-false _ _ (or-eq-false _ _ (or-eq-false _ _ fixed).0).0).1;
      logistics = eq_of_not-ne _ _ (or-eq-false _ _ (or-eq-false _ _ fixed).0).1;
      retailer = eq_of_not-ne _ _ (or-eq-false _ _ fixed).1;
      region = not-eq-false _ region;
      date = not-eq-false _ (guard_last _ _ h₃);
    }

pub validate-IsCreate :
    (p : Platform) (raw : Bytes)
    → validate p create_batch raw ≡ ok tt
    → IsCreate (p.create_input.unmarshal zero_create raw).0
unfolding validate
validate-IsCreate p raw h = from_bind _ _ h λ i decoded checked.
    subst IsCreate (decode-eq-ok p p.create_input zero_create raw _ i decoded)
      (check_create-IsCreate i checked)

-- The input of a ReportRetailPrice that is accepted.
pub record IsReport (i : ReportInput) : Type 0 where
  pub report : valid_id i.report_id "RPT" ≡ true
  pub lot : valid_id i.retail_lot_id "LOT" ≡ true
  pub policy : valid_id i.policy_id "CFG" ≡ true

check_report-IsReport : (i : ReportInput) → check_report i ≡ ok tt → IsReport i
unfolding check_report
check_report-IsReport i h =
    let ids = guard_last _ _ h in
    record {
      report = not-eq-false _ (or-eq-false _ _ (or-eq-false _ _ ids).0).0;
      lot = not-eq-false _ (or-eq-false _ _ (or-eq-false _ _ ids).0).1;
      policy = not-eq-false _ (or-eq-false _ _ ids).1;
    }

pub validate-IsReport :
    (p : Platform) (raw : Bytes)
    → validate p report_retail_price raw ≡ ok tt
    → IsReport (p.report_input.unmarshal zero_report raw).0
unfolding validate
validate-IsReport p raw h = from_bind _ _ h λ i decoded checked.
    subst IsReport (decode-eq-ok p p.report_input zero_report raw _ i decoded)
      (check_report-IsReport i checked)

-- What a parsed command holds.
pub record IsParsed (p : Platform) (fn : Fn) (c : Command) : Type 0 where
  pub schema : c.schema_version ≡ "agrochain.command.v1"
  pub function : fn_name c.command ≡ fn_name fn
  pub batch : valid_id c.batch_id "BAT" ≡ true
  pub operation : valid_id c.operation_id "OP" ≡ true
  pub version : (n : ℕ) × (c.expected_version ≡ pos n) × (n ≤ 2147483647)
  pub payload : validate_payload p c ≡ ok tt

version_range :
    (v : ℤ)
    → (ltz v (pos 0) || ltz (pos 2147483647) v) ≡ false
    → (n : ℕ) × (v ≡ pos n) × (n ≤ 2147483647)
version_range (pos n) h = (n, refl, ground arith)
version_range (negsuc n) h = ground arith

-- A command that is parsed has the schema version, the name of the function that was called, a batch
-- and an operation identifier of the right kind, an expected version from 0 to 2147483647, and a
-- payload that its validation accepts.
pub parse_command-IsParsed :
    (p : Platform) (fn : Fn) (raw : Bytes) (c : Command)
    → parse_command p fn raw ≡ ok c
    → IsParsed p fn c
unfolding parse_command check_command
parse_command-IsParsed p fn raw c h = from_bind _ _ h λ c' _ h₁. from_guard _ _ _ h₁ λ schema h₂.
    from_guard _ _ _ h₂ λ function h₃. from_guard _ _ _ h₃ λ ids h₄.
      from_guard _ _ _ h₄ λ version h₅. from_step _ _ h₅ λ payload h₆.
        subst (IsParsed p fn) (ok-injective h₆) (record {
          schema = eq_of_not-ne _ _ schema;
          function = eq_of_not-ne _ _ function;
          batch = not-eq-false _ (or-eq-false _ _ ids).0;
          operation = not-eq-false _ (or-eq-false _ _ ids).1;
          version = version_range _ version;
          payload = payload;
        })
