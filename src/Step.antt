-- ===== src/Step.antt =====
-- What the commands of `engine.apply` share (domain.go and models.go): who executes, what the evidence
-- provider verified, and what the `switch` on the command leaves for the common end.
pub mod Documents
pub mod Handoff
pub mod Retail
pub mod Create
pub mod Facts
pub mod Evidence
use agro_chain.Base.{String, List, Bool, ◌&&◌, [], ◌==◌}
use agro_chain.Base.Int.{ℤ, pos, ltz, lez, eqz, mul64}
use agro_chain.Model.{TxTime, Batch, EvidenceRefs, PrivateWrite}
use agro_chain.Ledger.{WritePlan}

pub record Execution : Type 0 where
  pub actor : String
  pub role : String
  pub tx_id : String
  pub time : TxTime

-- `verified`
pub record Verified : Type 0 where
  pub public : WritePlan
  pub private : List PrivateWrite
  pub cks : String
  pub purchase : String
  pub hks : String
  pub manifest : String
  pub quantity : ℤ
  pub purchase_price : ℤ
  pub purchase_total : ℤ
  pub freight_total : ℤ
  pub retail_price : ℤ
  pub currency : String
  pub tax_basis : String
  pub policy_id : String

-- The variables `b`, `refs`, `plan`, `ids` and `eventName` behind the `switch`.
pub record Outcome : Type 0 where
  pub batch : Batch
  pub refs : EvidenceRefs
  pub plan : WritePlan
  pub ids : List String
  pub event_name : String

unfoldable pub valid_purchase : Verified → Bool
valid_purchase p =
    ltz (pos 0) p.quantity
    && lez p.quantity (pos 100000000)
    && ltz (pos 0) p.purchase_price
    && lez p.purchase_price (pos 1000000000)
    && ltz (pos 0) p.purchase_total
    && lez p.purchase_total (pos 1000000000000)
    && p.currency == "TRY"
    && p.tax_basis == "EXCLUDING_TAX"
    && eqz (mul64 p.purchase_price p.quantity) (mul64 p.purchase_total (pos 1000))
