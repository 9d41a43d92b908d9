-- ===== src/Evidence/Bundles.antt =====
-- `decodeBundles` of evidence.go. Where the source asserts that a value is an object, it is one: it was
-- decoded into a struct before. The model refuses it otherwise.
use Prim.Native.String.{compare}
use text.Mathlib.Text.{is_le}
use agro_chain.Base.{String, List, [], ◌∷◌, none, some}
use agro_chain.Codes.{Result, ok, err, invalid_schema, ◌>>=◌, ◌>>◌, fail_if}
use agro_chain.Model.{Bytes}
use agro_chain.Model.Evidence.{Bundle}
use agro_chain.Json.{Value, arr, null, Items, nil, cons, Fields, find_field}
use agro_chain.Platform.{Platform, strict_json, as_object}
use agro_chain.Evidence.{encoded_exact}
use agro_chain.Evidence.Types.{bundle_type, envelope_type, header_type}

-- `arr, ok := v.([]any)`
unfoldable pub as_array : Value → Result Items
as_array (arr items) = ok items
as_array _ = err invalid_schema

-- `m[k]`, nil if it is missing.
unfoldable pub member_of : String → Fields → Value
member_of k fs = elim (find_field k fs) [ none ↦ null | some v ↦ v ]

module _ (p : Platform) where
  unfoldable pub decode_bundle : Value → Result Bundle
  decode_bundle item = do
    b ← encoded_exact p p.value item (bundle_type p)
    fields ← as_object p item
    _ ← encoded_exact p p.value (member_of "envelope" fields) (envelope_type p)
    parts ← as_object p (member_of "envelope" fields)
    _ ← encoded_exact p p.value (member_of "header" parts) (header_type p)
    ok b

  -- The loop, with the last document identifier.
  unfoldable pub bundles_of : String → Items → Result (List Bundle)
  bundles_of last nil = ok []
  bundles_of last (cons item items) = do
    b ← decode_bundle item
    fail_if (is_le (compare b.envelope.header.document_id last)) invalid_schema
    rest ← bundles_of b.envelope.header.document_id items
    ok (b ∷ rest)

  unfoldable pub decode_bundles : Bytes → Result (List Bundle)
  decode_bundles raw = do v ← strict_json p raw; items ← as_array v; bundles_of "" items
