-- ===== src/Evidence/Commitment.antt =====
-- The bytes that a commitment hashes can be read back (`commitment` of evidence.go).
use agro_chain.Base.{
  ℕ, suc, zero, ◌+◌, ◌-◌, ◌*◌, ◌/◌, ◌%◌, ◌^◌, ◌<◌, String, true, List, [], ◌∷◌, ◌++◌, ◌≡◌, refl,
  arith, and-eq-true, all, codes, length, eqb,
}
use agro_chain.Text.{hex_id, is_hex}
use agro_chain.Text.Hex.{hex_value, hex_bytes, big_endian}
use agro_chain.Text.Hex.Digits.{digit_of, digits_of}
use agro_chain.Model.{Bytes}
use agro_chain.Evidence.{preimage}

-- A reader of hashed bytes, which knows the widths only: it cuts off the mark with its zero byte, 32
-- bytes of salt, which it prints as hexadecimal digits, and 8 bytes of a number, and keeps the rest.
abbrev pub cut : ℕ → Bytes → Bytes × Bytes
cut zero xs = ([], xs)
cut (suc n) [] = ([], [])
cut (suc n) (x ∷ xs) = let (front, back) = cut n xs in (x ∷ front, back)

abbrev pub number_of : ℕ → Bytes → ℕ
number_of acc [] = acc
number_of acc (b ∷ bs) = number_of (acc * 256 + b) bs

abbrev pub read_preimage : Bytes → List ℕ × (ℕ × Bytes)
read_preimage bytes =
    let framed = (cut 22 bytes).1 in
    let sized = (cut 32 framed).1 in
    (digits_of (cut 32 framed).0, (number_of 0 (cut 8 sized).0, (cut 8 sized).1))

cut-append : (n : ℕ) (xs ys : Bytes) → length xs ≡ n → cut n (xs ++ ys) ≡ (xs, ys)
cut-append zero [] ys h = refl
cut-append zero (x ∷ xs) ys h = absurd (omega arith)
cut-append (suc n) [] ys h = absurd (omega arith)
cut-append (suc n) (x ∷ xs) ys h = rw (cut-append n xs ys (omega arith)) refl

hex_digit-roundtrip : (c : ℕ) → is_hex c ≡ true → (hex_value c < 16) × (digit_of (hex_value c) ≡ c)
unfolding hex_value
hex_digit-roundtrip c h = (ground arith, ground arith)

two_digits : (a b : ℕ) → a < 16 → b < 16 → ((a * 16 + b) / 16 ≡ a) × ((a * 16 + b) % 16 ≡ b)
two_digits a b h k = (omega arith, omega arith)

-- n bytes of salt come from n * 2 digits, and print as them.
digits_of-hex_bytes :
    (cs : Bytes) (n : ℕ)
    → length cs ≡ n * 2
    → all is_hex cs ≡ true
    → (length (hex_bytes cs) ≡ n) × (digits_of (hex_bytes cs) ≡ cs)
unfolding hex_bytes
digits_of-hex_bytes [] n p h = (omega arith, refl)
digits_of-hex_bytes (c ∷ []) n p h = absurd (omega arith)
digits_of-hex_bytes (c ∷ d ∷ cs) n p h =
    let (hc, h₁) = and-eq-true (is_hex c) (all is_hex (d ∷ cs)) h in
    let (hd, hcs) = and-eq-true (is_hex d) (all is_hex cs) h₁ in
    let (long, same) = digits_of-hex_bytes cs (n - 1) (omega arith) hcs in
    let (small_c, back_c) = hex_digit-roundtrip c hc in
    let (small_d, back_d) = hex_digit-roundtrip d hd in
    let (high, low) = two_digits (hex_value c) (hex_value d) small_c small_d in
    (omega arith, rw (high, low, back_c, back_d, same) refl)

length-big_endian : (n : ℕ) → length (big_endian n) ≡ 8
unfolding big_endian
length-big_endian n = refl

number_of-big_endian : (n : ℕ) → number_of 0 (big_endian n) ≡ n % 2 ^ 64
unfolding big_endian
number_of-big_endian n = omega arith

long_salt : (cs : Bytes) → eqb (length cs) 64 ≡ true → length cs ≡ 32 * 2
long_salt cs h = ground arith

-- For a salt of 64 lower-case hexadecimal digits, what a commitment hashes is read back: behind a
-- mark and a zero byte of 22 bytes together, 32 bytes hold the digits of the salt, 8 bytes the length
-- of the body modulo 2 ^ 64, highest byte first, and the rest is the body. So the hashed bytes
-- determine the salt and the body.
pub read_preimage-preimage :
    (salt : String) (body : Bytes)
    → hex_id salt ≡ true
    → read_preimage (preimage salt body) ≡ (codes salt, (length body % 2 ^ 64, body))
unfolding preimage hex_id
read_preimage-preimage salt body h =
    let (is_digits, long) = and-eq-true (all is_hex (codes salt)) _ h in
    let (width, printed) =
      digits_of-hex_bytes (codes salt) 32 (long_salt (codes salt) long) is_digits in
    let sized = big_endian (length body) ++ body in
    rw
      (
        cut-append 32 (hex_bytes (codes salt)) sized width,
        cut-append 8 (big_endian (length body)) body (length-big_endian (length body)),
        printed,
        number_of-big_endian (length body),
      )
      refl
