-- ===== src/Codes.antt =====
-- Error codes, results and `fail` (chaincode/agrochain/internal/agrochain/validation.go).
-- A Go function that returns `(T, error)` returns a `Result T`; every error of the domain is made by
-- `fail`, so an error is its code.
pub mod Messages
use agro_chain.Base.{◌≡◌, refl, Bool, true, false, arith}

-- The keys of `messages`.
pub data Code : Type 0 where
  anomaly_result_mismatch anomaly_already_exists invalid_review_transition : Code
  invalid_schema invalid_identifier unsupported_schema_version invalid_quantity : Code
  invalid_money unsupported_pilot_operation unauthorized_organization unauthorized_role : Code
  wrong_transfer_recipient batch_not_found transfer_not_found operation_not_found : Code
  batch_already_exists transfer_already_exists lot_already_exists cost_already_exists : Code
  report_already_exists duplicate_transaction document_already_used : Code
  invalid_state_transition version_conflict missing_evidence source_binding_mismatch : Code
  policy_mismatch invalid_page evidence_verification_unavailable internal_error : Code
  configuration_required configuration_already_exists untrusted_source_key : Code
  invalid_source_signature document_hash_mismatch source_nonce_already_used : Code
  source_claim_rejected private_data_access_denied private_data_unavailable : Code
  document_not_found : Code

pub data Result {ℓ} (A : Type ℓ) : Type ℓ where
  ok : A → Result A
  err : Code → Result A

infixl 5 ◌>>=◌ ◌>>◌
unfoldable pub ◌>>=◌ {ℓ κ} : {V : Type ℓ} {W : Type κ} → Result V → (V → Result W) → Result W
err c >>= next = err c
ok v >>= next = next v

-- A step of which only the error matters.
abbrev pub ◌>>◌ {ℓ} : {W : Type ℓ} → Result (Unit {0}) → Result W → Result W
check >> next = check >>= λ done. next

-- `if cond { return fail(code) }`
unfoldable pub fail_if : Bool → Code → Result (Unit {0})
fail_if true c = err c
fail_if false c = ok tt

-- What a successful chain of steps says of its first step.
module _ {ℓ κ} {A : Type ℓ} {B : Type κ} where
  pub bind-eq-ok :
      {w : B} (first : Result A) (next : A → Result B)
      → (first >>= next) ≡ ok w
      → (v : A) × (next v ≡ ok w) × (first ≡ ok v)
  unfolding ◌>>=◌
  bind-eq-ok (err c) next h = ground arith
  bind-eq-ok (ok v) next h = (v, h, refl)

pub guard-eq-ok {ℓ} :
    {B : Type ℓ} (t : Bool) (c : Code) (k : Result B) {b : B}
    → (fail_if t c >> k) ≡ ok b
    → (t ≡ false) × (k ≡ ok b)
unfolding ◌>>=◌ fail_if
guard-eq-ok true c k h = ground arith
guard-eq-ok false c k h = (refl, h)

pub step-eq-ok {ℓ} :
    {B : Type ℓ} (m : Result (Unit {0})) (k : Result B) {b : B}
    → (m >> k) ≡ ok b
    → (m ≡ ok tt) × (k ≡ ok b)
unfolding ◌>>=◌
step-eq-ok (ok tt) k h = (refl, h)
step-eq-ok (err e) k h = ground arith

-- The same, for a goal that uses the parts: what is bound stays a variable.
module _ {ℓ κ μ} {A : Type ℓ} {B : Type κ} {P : Type μ} where
  pub from_bind :
      (first : Result A) (next : A → Result B) {w : B}
      → (first >>= next) ≡ ok w
      → ((v : A) → first ≡ ok v → next v ≡ ok w → P)
      → P
  from_bind first next h use_it = let r = bind-eq-ok first next h in use_it r.0 r.2 r.1

module _ {ℓ μ} {B : Type ℓ} {P : Type μ} where
  pub from_guard :
      (t : Bool) (c : Code) (k : Result B) {b : B}
      → (fail_if t c >> k) ≡ ok b
      → (t ≡ false → k ≡ ok b → P)
      → P
  from_guard t c k h use_it = let r = guard-eq-ok t c k h in use_it r.0 r.1

  pub from_step :
      (m : Result (Unit {0})) (k : Result B) {b : B}
      → (m >> k) ≡ ok b
      → (m ≡ ok tt → k ≡ ok b → P)
      → P
  from_step m k h use_it = let r = step-eq-ok m k h in use_it r.0 r.1

-- Equal first steps and equal rests make equal chains.
module _ {ℓ κ} {A : Type ℓ} {B : Type κ} where
  pub bind_ap :
      (m m' : Result A) (next next' : A → Result B)
      → m ≡ m'
      → ((v : A) → next v ≡ next' v)
      → (m >>= next) ≡ (m' >>= next')
  unfolding ◌>>=◌
  bind_ap m (err c) next next' e h = rw e refl
  bind_ap m (ok v) next next' e h = rw e (h v)

pub ok-injective {ℓ} : {A : Type ℓ} {a b : A} → ok a ≡ ok b → a ≡ b
ok-injective h = ground arith

pub err-injective {ℓ} : {A : Type ℓ} {c d : Code} → ◌≡◌ {A = Result A} (err c) (err d) → c ≡ d
err-injective h = ground arith

pub guard_last : (t : Bool) (c : Code) → fail_if t c ≡ ok tt → t ≡ false
unfolding fail_if
guard_last true c h = ground arith
guard_last false c h = refl

pub err-ne-ok {ℓ} : {A : Type ℓ} {c : Code} {a : A} → ◌≡◌ {A = Result A} (err c) (ok a) → ⊥
err-ne-ok h = ground arith
