-- ===== src/Ledger.antt =====
-- The ledger that one proposal sees (ledger.go): the committed state that it reads, and the
-- operations that it stages on the stub, in order. Fabric commits all of them or none.
pub mod Plan
use Prim.Native.String.{compare}
use text.Mathlib.Text.{is_le}
use agro_chain.Base.{
  String, Bool, true, false, not, List, [], ◌∷◌, ◌++◌, Option, none, some, map, ◌==◌, if◌then◌else◌,
}
use agro_chain.Base.Int.{ℤ}
use agro_chain.Codes.{Result, ok, err, Code, internal_error, ◌>>=◌}
use agro_chain.Model.{Bytes, Event}
use agro_chain.Platform.{Platform, Codec, key, canonical}

-- PutState, DelState, PutPrivateData and SetEvent.
pub data Op : Type 0 where
  put : String → Bytes → Op
  remove : String → Op
  put_private : String → String → Bytes → Op
  emit : String → Bytes → Op

-- The stub: what it reads (`none` is an error), which operations it refuses, whether the ledger has
-- private data at all, a page of an index (the values, and the bookmark behind them), and what it reads
-- of a private collection.
pub record Ledger : Type 0 where
  pub read : String → Option Bytes
  pub refuses : Op → Bool
  pub has_private : Bool
  pub read_private : String → String → Option Bytes
  pub page : String → List String → ℤ → String → Result (List Bytes × String)

unfoldable pub unmarshalled : {A : Type 0} → A × Bool → Result (Bool × A)
unmarshalled (v, true) = ok (true, v)
unmarshalled (v, false) = err internal_error

unfoldable pub load_bytes : {A : Type 0} → Codec A → Option Bytes → A → Result (Bool × A)
load_bytes codec none dst = err internal_error
load_bytes codec (some []) dst = ok (false, dst)
load_bytes codec (some (c ∷ cs)) dst = unmarshalled (codec.unmarshal dst (c ∷ cs))

-- Whether the key is there, and the value read.
unfoldable pub load : {A : Type 0} → Codec A → Ledger → String → A → Result (Bool × A)
unfolding load_bytes unmarshalled
load codec s k dst = load_bytes codec (s.read k) dst

unfoldable pub absent_bytes : Option Bytes → Code → Result (Unit {0})
absent_bytes none code = err internal_error
absent_bytes (some []) code = ok tt
absent_bytes (some (c ∷ cs)) code = err code

unfoldable pub absent : Ledger → String → Code → Result (Unit {0})
unfolding absent_bytes
absent s k code = absent_bytes (s.read k) code

-- `map[string][]byte`; `none` is nil, a key to delete.
abbrev pub WritePlan : Type 0
WritePlan = List (String × Option Bytes)

-- `p[k] = v`
unfoldable pub assign : String → Option Bytes → WritePlan → WritePlan
assign k v [] = (k, v) ∷ []
assign k v ((j, w) ∷ p) = if j == k then (k, v) ∷ p else (j, w) ∷ assign k v p

-- `p[k]`, if it is there.
unfoldable pub planned : String → WritePlan → Option (Option Bytes)
planned k [] = none
planned k ((j, w) ∷ p) = if j == k then some w else planned k p

-- `for k, v := range q { p[k] = v }`
unfoldable pub overlay : WritePlan → WritePlan → WritePlan
overlay p [] = p
overlay p ((k, v) ∷ q) = assign k v (overlay p q)

unfoldable pub put_value :
    {A : Type 0} → Platform → Codec A → String → A → WritePlan → Result WritePlan
put_value p codec k v plan = do b ← canonical p codec v; ok (assign k (some b) plan)

-- `sort.Strings`
insert_text : String → List String → List String
insert_text s [] = s ∷ []
insert_text s (t ∷ ts) = if is_le (compare s t) then s ∷ t ∷ ts else t ∷ insert_text s ts

unfoldable pub sort_texts : List String → List String
unfolding insert_text
sort_texts [] = []
sort_texts (s ∷ ss) = insert_text s (sort_texts ss)

unfoldable pub keys : WritePlan → List String
keys [] = []
keys ((k, v) ∷ p) = k ∷ keys p

-- The operation for a key of the plan.
unfoldable pub op_of : WritePlan → String → Op
op_of p k = elim (planned k p) [ none ↦ remove k | some none ↦ remove k | some (some b) ↦ put k b ]

-- Operations one after the other; the first that the stub refuses ends them. What was staged stays
-- staged beside the error.
unfoldable pub stage : Ledger → List Op → Result (Unit {0}) × List Op
stage s [] = (ok tt, [])
stage s (o ∷ os) =
    let rest = stage s os in
    elim (s.refuses o) [ true ↦ (err internal_error, []) | false ↦ (rest.0, o ∷ rest.1) ]

unfoldable pub plan_ops : WritePlan → List Op
unfolding keys
plan_ops p = map (op_of p) (sort_texts (keys p))

-- The event is serialised before anything is staged.
unfoldable pub flush : Platform → Ledger → WritePlan → Event → Result (Unit {0}) × List Op
flush p s plan event = elim (canonical p p.event event) [
  | err e ↦ (err e, [])
  | ok b ↦ stage s (plan_ops plan ++ emit event.event_type b ∷ [])
]
