-- ===== src/Contract/Adapter.antt =====
-- `fabricLedger` of contract.go: the ledger over the stub, and its pages.
pub mod Bookmarks
use Prim.Native.String.{◌++◌ as append}
use agro_chain.Base.{
  ℕ, zero, suc, String, Bool, true, false, not, ◌||◌, List, [], ◌∷◌, ◌++◌, Option, none, some,
  length, ◌==◌, ◌/=◌, if◌then◌else◌,
}
use agro_chain.Base.Int.{ℤ}
use agro_chain.Codes.{Result, ok, err, invalid_page, internal_error, ◌>>=◌, ◌>>◌, fail_if}
use agro_chain.Text.{has_prefix}
use agro_chain.Model.{Bytes}
use agro_chain.Platform.{Platform, key}
use agro_chain.Ledger.{Ledger, Op}

-- What `GetStateByPartialCompositeKeyWithPagination` gives: a value for each step of the iterator,
-- `none` where that fails, and the bookmark behind them.
pub record Listing : Type 0 where
  pub entries : List (Option Bytes)
  pub bookmark : Bytes

-- The stub of the shim; `none` is an error. A bookmark is the bytes of a Go string.
pub record Stub : Type 0 where
  pub get_state : String → Option Bytes
  pub refuses : Op → Bool
  pub get_private : String → String → Option Bytes
  pub range : String → List String → ℤ → Bytes → Option Listing

-- `strings.Join(attrs, ":")`
unfoldable pub join_colons : List String → String
join_colons [] = ""
join_colons (a ∷ []) = a
join_colons (a ∷ more) = append a (append ":" (join_colons more))

unfoldable pub page_prefix : String → List String → String
page_prefix kind attrs = append kind (append ":" (append (join_colons attrs) ":"))

-- `b[n:]`
unfoldable pub drop : ℕ → Bytes → Bytes
drop zero bs = bs
drop (suc n) [] = []
drop (suc n) (b ∷ bs) = drop n bs

-- The loop over the iterator.
unfoldable pub entries_of : List (Option Bytes) → Result (List Bytes)
entries_of [] = ok []
entries_of (none ∷ vs) = err internal_error
entries_of (some v ∷ vs) = do rest ← entries_of vs; ok (v ∷ rest)

module _ (p : Platform) where
  unfoldable pub decoded_bookmark : String → List String → String → Option Bytes → Result Bytes
  decoded_bookmark kind attrs token none = err invalid_page
  decoded_bookmark kind attrs token (some b) = do
    let prefix = p.bytes_of (page_prefix kind attrs)
    fail_if (p.base64_encode b /= token || not (has_prefix b prefix)) invalid_page
    let bookmark = drop (length prefix) b
    fail_if (not (has_prefix bookmark (p.bytes_of (key p kind attrs)))) invalid_page
    ok bookmark

  -- The bookmark that a token stands for.
  unfoldable pub bookmark_of : String → List String → String → Result Bytes
  bookmark_of kind attrs token =
      if token == "" then ok [] else decoded_bookmark kind attrs token (p.base64_decode token)

  unfoldable pub next_token : String → List String → Bytes → String
  next_token kind attrs [] = ""
  next_token kind attrs (b ∷ bs) = p.base64_encode (p.bytes_of (page_prefix kind attrs) ++ b ∷ bs)

  unfoldable pub listed : String → List String → Option Listing → Result (List Bytes × String)
  listed kind attrs none = err internal_error
  listed kind attrs (some l) = do
    items ← entries_of l.entries
    ok (items, next_token kind attrs l.bookmark)

  -- `fabricLedger.page`
  unfoldable pub fabric_page :
      Stub → String → List String → ℤ → String → Result (List Bytes × String)
  fabric_page stub kind attrs size token = do
    bookmark ← bookmark_of kind attrs token
    listed kind attrs (stub.range kind attrs size bookmark)

  unfoldable pub fabric_ledger : Stub → Ledger
  fabric_ledger stub = record {
    read = stub.get_state;
    refuses = stub.refuses;
    has_private = true;
    read_private = stub.get_private;
    page = fabric_page stub;
  }
