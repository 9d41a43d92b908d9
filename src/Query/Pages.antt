-- ===== src/Query/Pages.antt =====
-- What a page of a query holds.
use agro_chain.Base.{
  ℕ, ◌≤◌, String, Bool, true, false, ◌||◌, List, [], ◌∷◌, ◌==◌, ◌≡◌, refl, subst, ap, arith,
  not-eq-false, eq_of_not-ne, ◌∙◌,
}
use agro_chain.Base.Int.{ℤ, pos, negsuc, ltz}
use agro_chain.Codes.{ok, from_bind, from_guard, from_step, ok-injective, guard_last, err-ne-ok}
use agro_chain.Text.{valid_id, member, valid_state}
use agro_chain.Model.{
  Bytes, Fn, Batch, Receipt, Page, PageInput, get_batch_history, query_batches_by_owner,
}
use agro_chain.Model.Zero.{zero_batch, zero_receipt, zero_page_input}
use agro_chain.Platform.{Platform, key, canonical, decode}
use agro_chain.Ledger.{Ledger, load}
use agro_chain.Query.{
  whole, check_filter, kind_of, history_record, index_record, page_record, page_records, page_query,
}

whole-eq-ok : {A : Type 0} (v : A × Bool) (a : A) → whole v ≡ ok a → v ≡ (a, true)
unfolding whole
whole-eq-ok (v, true) a h = ap (λ z. (z, true)) (ok-injective h)
whole-eq-ok (v, false) a h = absurd (err-ne-ok h)

size_range :
    (z : ℤ)
    → (ltz z (pos 1) || ltz (pos 100) z) ≡ false
    → (n : ℕ) × (z ≡ pos n) × (1 ≤ n) × (n ≤ 100)
size_range (pos n) h = (n, refl, ground arith, ground arith)
size_range (negsuc n) h = ground arith

-- The index that a page function reads, and the filters that it allows.
abbrev pub IsIndex : Fn → String → String → Type 0
IsIndex get_batch_history kind filter = (kind ≡ "history") × (valid_id filter "BAT" ≡ true)
IsIndex query_batches_by_owner kind filter = (kind ≡ "owner") × (member filter ≡ true)
IsIndex _ kind filter = (kind ≡ "state") × (valid_state filter ≡ true)

checked-IsIndex :
    (fn : Fn) (filter : String) → check_filter fn filter ≡ ok tt → IsIndex fn (kind_of fn) filter
unfolding check_filter kind_of
checked-IsIndex get_batch_history filter h = (refl, not-eq-false _ (guard_last _ _ h))
checked-IsIndex query_batches_by_owner filter h = (refl, not-eq-false _ (guard_last _ _ h))
checked-IsIndex _ filter h = (refl, not-eq-false _ (guard_last _ _ h))

module _ (p : Platform) (s : Ledger) where
  -- An entry of the history: the receipt that is stored in the index.
  abbrev pub FromHistory : Bytes → Bytes → Type 0
  FromHistory v out =
      (r : Receipt) × (p.receipt.unmarshal zero_receipt v ≡ (r, true))
      × (canonical p p.receipt r ≡ ok out)

  -- An entry of another index: the batch that is stored now under the identifier in the index.
  abbrev pub FromBatch : Bytes → Bytes → Type 0
  FromBatch v out =
      (id : String) × (b : Batch) × (p.text.unmarshal "" v ≡ (id, true))
      × (valid_id id "BAT" ≡ true)
      × (load p.batch s (key p "batch" (id ∷ [])) zero_batch ≡ ok (true, b))
      × (canonical p p.batch b ≡ ok out)

  abbrev pub FromIndex : Bool → Bytes → Bytes → Type 0
  FromIndex true v out = FromHistory v out
  FromIndex false v out = FromBatch v out

  -- The records of a page are those of the index values, one for each and in their order.
  abbrev pub FromValues : Bool → List Bytes → List Bytes → Type 0
  FromValues history [] [] = Unit
  FromValues history (v ∷ vs) (out ∷ outs) = FromIndex history v out × FromValues history vs outs
  FromValues history _ _ = ⊥

  history_record-FromHistory : (v out : Bytes) → history_record p s v ≡ ok out → FromHistory v out
  unfolding history_record
  history_record-FromHistory v out h =
      from_bind _ _ h λ r read written. (r, whole-eq-ok _ _ read, written)

  index_record-FromBatch : (v out : Bytes) → index_record p s v ≡ ok out → FromBatch v out
  unfolding index_record
  index_record-FromBatch v out h = from_bind _ _ h λ id read h₁. from_guard _ _ _ h₁ λ named h₂.
      from_bind _ _ h₂ λ found there h₃. from_guard _ _ _ h₃ λ exists written. (
        id,
        found.1,
        whole-eq-ok _ _ read,
        not-eq-false _ named,
        there ∙ ap (λ t. ok (t, found.1)) (not-eq-false _ exists),
        written,
      )

  page_record-FromIndex :
      (kind : String) (history : Bool) (v out : Bytes)
      → (kind == "history") ≡ history
      → page_record p s kind v ≡ ok out
      → FromIndex history v out
  unfolding page_record
  page_record-FromIndex kind true v out k h = history_record-FromHistory v out (rw k at h)
  page_record-FromIndex kind false v out k h = index_record-FromBatch v out (rw k at h)

  page_records-FromValues :
      (kind : String) (history : Bool) (vs outs : List Bytes)
      → (kind == "history") ≡ history
      → page_records p s kind vs ≡ ok outs
      → FromValues history vs outs
  unfolding page_records
  page_records-FromValues kind history [] outs k h =
      subst (FromValues history []) (ok-injective h) tt
  page_records-FromValues kind history (v ∷ vs) outs k h = from_bind _ _ h λ one first h₁.
      from_bind _ _ h₁ λ rest others h₂. subst (FromValues history (v ∷ vs)) (ok-injective h₂) (
        page_record-FromIndex kind history v one k first,
        page_records-FromValues kind history vs rest k others,
      )

  -- The request that the argument decodes to, the index page that it names, and the page answered.
  pub record IsPage (fn : Fn) (arg : String) (page : Page) : Type 0 where
    pub request : PageInput
    pub decoded :
        decode p p.page_input zero_page_input
          (p.bytes_of arg)
          ("schemaVersion" ∷ "filter" ∷ "pageSize" ∷ "bookmark" ∷ [])
        ≡ ok request
    pub request_schema : request.schema_version ≡ "agrochain.page-request.v1"
    pub size : ℕ
    pub asked_size : request.page_size ≡ pos size
    pub at_least : 1 ≤ size
    pub at_most : size ≤ 100
    pub kind : String
    pub index : IsIndex fn kind request.filter
    pub values : List Bytes
    pub listed :
        s.page kind (request.filter ∷ []) request.page_size request.bookmark
        ≡ ok (values, page.bookmark)
    pub records : FromValues (kind == "history") values page.records
    pub page_schema : page.schema_version ≡ "agrochain.page.v1"

  -- The argument of a page query that is answered decodes to a request of the page schema with a size
  -- from 1 to 100 and a filter that the function allows: a batch identifier for the history, a member
  -- for the owners and a state for the states. The page is read from that index with the filter, the
  -- size and the bookmark of the request, and answers the index's next bookmark. Its records are, one
  -- for each value of the index page and in that order, the stored receipt for the history, and for
  -- the two other indexes the batch stored under the identifier.
  pub page_query-IsPage :
      (fn : Fn) (arg : String) (page : Page) → page_query p s fn arg ≡ ok page → IsPage fn arg page
  unfolding page_query
  page_query-IsPage fn arg page h = from_bind _ _ h λ i decoded h₁. from_guard _ _ _ h₁ λ schema h₂.
      from_guard _ _ _ h₂ λ sized h₃. from_step _ _ h₃ λ checked h₄.
        from_bind _ _ h₄ λ items listed h₅. from_bind _ _ h₅ λ records made h₆.
          let (n, same, lo, hi) = size_range i.page_size sized in
          subst (IsPage fn arg) (ok-injective h₆) (record {
            request = i;
            decoded = decoded;
            request_schema = eq_of_not-ne _ _ schema;
            size = n;
            asked_size = same;
            at_least = lo;
            at_most = hi;
            kind = kind_of fn;
            index = checked-IsIndex fn i.filter checked;
            values = items.0;
            listed = listed;
            records = page_records-FromValues _ _ _ _ refl made;
            page_schema = refl;
          })
