-- ===== src/Examples/Reading.antt =====
-- Private reads and pages, at concrete ledgers and stubs.
use agro_chain.Provider.{
  add_private, any_required, check_transient, documents_for, entry_of, expected_entries, extra_of,
  media, private_bytes, private_load, read_salt, record_uses, required_of, salt_of, system_for,
  unknown_entry, unused_in, use_once, use_record, without,
}
use Prim.Native.Char.{code}
use Prim.Native.Nat.{zero, suc}
use text.Mathlib.TextLemmas.{cons≢nil}
use agro_chain.Base.{
  ◌↔◌, ℕ, String, Bool, true, false, [], ◌∷◌, Option, none, some, ◌≡◌, ◌∙◌, refl, ap, arith, ◌==◌,
  eq_iff, if◌then◌else◌, Bool-cases, inl, inr, eqb, subst, sym, ◌+◌,
}
use agro_chain.Base.Int.{pos}
use agro_chain.Codes.{fail_if, ok, ◌>>=◌}
use agro_chain.Text.{
  has_prefix, hex_id, identifier, identifier_rest, member, reference, safe_string,
  valid_explanation, valid_id, valid_state,
}
use agro_chain.Model.{Bytes, get_purchase}
use agro_chain.Model.Evidence.Zero.{zero_bundle}
use agro_chain.Platform.{Platform, as_object, canonical, decode, key, missing, or_fail, strict_json}
use agro_chain.Ledger.{
  Ledger, absent, absent_bytes, assign, flush, keys, load, load_bytes, op_of, overlay, plan_ops,
  planned, put_value, sort_texts, stage, unmarshalled,
}
use agro_chain.Private.{
  analysis_answer, analysis_query, collection_for, collection_of, may_read, opening_result,
  private_answer, private_query, purchase_answer, record_query, review_action_of, review_actions,
  verify_opening,
}
use agro_chain.Private.Secrecy.{
  Alike, Reader, source_of, private_query_alike, may_read-Reader, private_query-Reader,
}
use agro_chain.Contract.Adapter.{
  Listing, Stub, bookmark_of, decoded_bookmark, drop, entries_of, fabric_ledger, fabric_page,
  join_colons, listed, next_token, page_prefix,
}
use agro_chain.Contract.Adapter.Bookmarks.{
  Base64Law, InRange, fabric_page-InRange, bookmark_of-next_token,
}
use agro_chain.Examples.World.{world, on_the_road}

-- Two ledgers that differ in the audit records.
abbrev bought : Ledger
bought = record on_the_road { read_private = λ c k. some (123 ∷ []) }

abbrev hidden_if : Bool → String → Option Bytes
hidden_if true k = some []
hidden_if false k = some (123 ∷ [])

abbrev audited : Ledger
audited = record on_the_road { read_private = λ c. hidden_if (c == "retailAuditPrivate") }

no_audit : may_read "ProducerMSP" "producer" "retailAuditPrivate" ≡ false
unfolding may_read
no_audit = refl

bought-Alike : Alike "ProducerMSP" "producer" bought audited
bought-Alike = record {
  reads = refl;
  pages = refl;
  shared = λ c allowed. elim (Bool-cases (c == "retailAuditPrivate")) [
    | inl e ↦
        let same : c ≡ "retailAuditPrivate" = (eq_iff c _).0 e in
        let bad : may_read "ProducerMSP" "producer" "retailAuditPrivate" ≡ true =
          subst (λ z. may_read "ProducerMSP" "producer" z ≡ true) same allowed in
        let clash : true ≡ false = sym bad ∙ no_audit in absurd (ground arith)
    | inr e ↦ subst (λ t. bought.read_private c ≡ hidden_if t) (sym e) refl
  ];
}

private_query_alike_example :
    private_query world bought "ProducerMSP" "producer" get_purchase "BAT-00000001"
    ≡ private_query world audited "ProducerMSP" "producer" get_purchase "BAT-00000001"
private_query_alike_example =
    private_query_alike world bought audited "ProducerMSP" "producer" bought-Alike get_purchase
      "BAT-00000001"

purchase_read :
    private_query world bought "ProducerMSP" "producer" get_purchase "BAT-00000001"
    ≡ ok (purchase_answer zero_bundle)
unfolding may_read collection_of collection_for opening_result review_action_of review_actions
    analysis_answer analysis_query private_answer record_query private_query verify_opening entry_of
    required_of extra_of any_required expected_entries unknown_entry check_transient system_for
    without unused_in salt_of media private_bytes private_load add_private read_salt use_record
    use_once record_uses documents_for unmarshalled load_bytes load absent_bytes absent assign
    planned overlay put_value sort_texts keys op_of stage plan_ops flush ◌>>=◌ fail_if or_fail key
    canonical strict_json as_object missing decode identifier_rest identifier hex_id reference
    has_prefix valid_id safe_string valid_explanation member valid_state
purchase_read = refl

may_read-Reader_example :
    (may_read "ProducerMSP" "producer" "tradePrivate" ≡ true)
    ↔ Reader "ProducerMSP" "producer" "tradePrivate"
may_read-Reader_example = may_read-Reader "ProducerMSP" "producer" "tradePrivate"

private_query-Reader_example : Reader "ProducerMSP" "producer" (source_of get_purchase)
private_query-Reader_example =
    private_query-Reader world bought "ProducerMSP" "producer" get_purchase "BAT-00000001"
      (purchase_answer zero_bundle) purchase_read

-- A printing of bytes that is read back: each byte in strokes, with a mark behind.
tally : ℕ → String → String
tally zero rest = String.◌∷◌ "b" rest
tally (suc n) rest = String.◌∷◌ "a" (tally n rest)

print_bytes : Bytes → String
print_bytes [] = ""
print_bytes (n ∷ bs) = tally n (print_bytes bs)

mark_read : ℕ → Option Bytes → Option Bytes
mark_read n none = none
mark_read n (some bs) = some (n ∷ bs)

read_tally : ℕ → String → Option Bytes
read_tally n String.[] = some []
read_tally n (String.◌∷◌ c s) =
    if eqb (code c) 97 then read_tally (suc n) s else mark_read n (read_tally 0 s)

read_tally-tally :
    (k n : ℕ) (rest : String) → read_tally k (tally n rest) ≡ mark_read (n + k) (read_tally 0 rest)
unfolding tally read_tally
read_tally-tally k zero rest =
    ap (λ m. mark_read m (read_tally 0 rest)) (let e : k ≡ 0 + k = omega arith in e)
read_tally-tally k (suc n) rest =
    read_tally-tally (suc k) n rest
    ∙ ap (λ m. mark_read m (read_tally 0 rest)) (let e : n + suc k ≡ suc n + k = omega arith in e)

read_tally-print_bytes : (bs : Bytes) → read_tally 0 (print_bytes bs) ≡ some bs
unfolding print_bytes read_tally mark_read
read_tally-print_bytes [] = refl
read_tally-print_bytes (n ∷ bs) =
    read_tally-tally 0 n (print_bytes bs)
    ∙ rw (read_tally-print_bytes bs)
        (ap (λ m. some (m ∷ bs)) (let e : n + 0 ≡ n = omega arith in e))

tally-ne-nil : (n : ℕ) (rest : String) → tally n rest ≡ "" → ⊥
unfolding tally
tally-ne-nil zero rest h = cons≢nil h
tally-ne-nil (suc n) rest h = cons≢nil h

print_bytes-nonempty : (bs : Bytes) → (print_bytes bs == "") ≡ true → bs ≡ []
unfolding print_bytes
print_bytes-nonempty [] h = refl
print_bytes-nonempty (n ∷ bs) h = absurd (tally-ne-nil n (print_bytes bs) ((eq_iff _ _).0 h))

-- A platform with that printing in the place of base64.
abbrev tallied : Platform
tallied = record world { base64_decode = read_tally 0; base64_encode = print_bytes }

tallied-Base64Law : Base64Law tallied
tallied-Base64Law = record { inverse = read_tally-print_bytes; nonempty = print_bytes-nonempty }

-- A stub that lists one value.
abbrev listing : Listing
listing = record { entries = some (123 ∷ []) ∷ []; bookmark = [] }

abbrev stub : Stub
stub = record {
  get_state = λ k. some [];
  refuses = λ o. false;
  get_private = λ c k. some [];
  range = λ kind attrs size bookmark. some listing;
}

bookmark_of-next_token_example :
    bookmark_of tallied "o" [] (next_token tallied "o" [] (97 ∷ 111 ∷ 98 ∷ []))
    ≡ ok (97 ∷ 111 ∷ 98 ∷ [])
unfolding has_prefix key
bookmark_of-next_token_example =
    bookmark_of-next_token tallied "o" [] tallied-Base64Law 97 (111 ∷ 98 ∷ []) refl

page_listed :
    fabric_page tallied stub "o" [] (pos 10) (next_token tallied "o" [] (97 ∷ 111 ∷ 98 ∷ []))
    ≡ ok ((123 ∷ []) ∷ [], "")
unfolding join_colons page_prefix drop entries_of decoded_bookmark bookmark_of next_token listed
    fabric_page fabric_ledger ◌>>=◌ fail_if key has_prefix print_bytes tally read_tally mark_read
page_listed = refl

fabric_page-InRange_example :
    (bookmark : Bytes) × (l : Listing) × InRange tallied "o" [] bookmark
    × (stub.range "o" [] (pos 10) bookmark ≡ some l)
    × (entries_of l.entries ≡ ok ((123 ∷ []) ∷ []))
    × ("" ≡ next_token tallied "o" [] l.bookmark)
fabric_page-InRange_example =
    fabric_page-InRange tallied "o" [] stub (pos 10)
      (next_token tallied "o" [] (97 ∷ 111 ∷ 98 ∷ [])) ((123 ∷ []) ∷ [], "") page_listed
