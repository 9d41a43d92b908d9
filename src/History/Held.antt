-- ===== src/History/Held.antt =====
-- What one command does to the batches that a world state holds.
use agro_chain.Base.{
  ℕ, ◌≤◌, String, Bool, true, false, [], ◌∷◌, some, ◌≡◌, ◌∙◌, refl, sym, subst, ap, arith, ◌==◌,
  eq_iff, Bool-cases, inl, inr, if◌then◌else◌,
}
use agro_chain.Codes.{Result, ok, err-ne-ok, ok-injective, fail_if}
use agro_chain.Model.{
  Bytes, Fn, Command, Batch, EvidenceRefs, Receipt, created, pickup_pending, in_transport,
  delivery_pending, received, retail_reported, create_batch, offer_pickup, accept_pickup,
  record_freight_cost, offer_delivery, accept_delivery, report_retail_price, evaluate_price,
  open_review, resolve_review,
}
use agro_chain.Model.Zero.{zero_batch}
use agro_chain.Platform.{Platform, key, canonical}
use agro_chain.Ledger.{Ledger, load, load_bytes}
use agro_chain.Ledger.Plan.{committed}
use agro_chain.Step.{Execution, Verified}
use agro_chain.Engine.{apply, existence, is_create}
use agro_chain.Engine.Advance.{apply-Advanced}
use agro_chain.Engine.Commits.{batch_key}
use agro_chain.Engine.Custody.{WellFormed}
use agro_chain.Engine.Frame.{Foreign, apply-frame}
use agro_chain.Engine.Lifecycle.{Transition, SameIdentity, SameIdentity-refl}
use agro_chain.Engine.Stored.{apply-WellFormed}
use agro_chain.Engine.Written.{KeyLaw, Respects, key-ne}
use agro_chain.History.{World, Serves}

-- json.Unmarshal reads the encoding of a batch back, and that is not empty.
pub record BatchLaw (p : Platform) : Type 0 where
  pub restores :
      (b : Batch) (bytes : Bytes)
      → canonical p p.batch b ≡ ok bytes
      → load_bytes p.batch (some bytes) zero_batch ≡ ok (true, b)

-- The place of a state in the life of a batch.
abbrev pub rank : String → ℕ
rank state =
    if state == created
    then 1
    else if state == pickup_pending
    then 2
    else if state == in_transport
    then 3
    else if state == delivery_pending
    then 4
    else if state == received
    then 5
    else if state == retail_reported
    then 6
    else 0

Transition-rank : (fn : Fn) (old new : String) → Transition fn old new → rank old ≤ rank new
Transition-rank create_batch old new (h, k) = rw (h, k) (omega arith)
Transition-rank offer_pickup old new (h, k) = rw (h, k) (omega arith)
Transition-rank accept_pickup old new (h, k) = rw (h, k) (omega arith)
Transition-rank record_freight_cost old new (h, k) = rw k (omega arith)
Transition-rank offer_delivery old new (h, k) = rw (h, k) (omega arith)
Transition-rank accept_delivery old new (h, k) = rw (h, k) (omega arith)
Transition-rank report_retail_price old new (h, k) = rw (h, k) (omega arith)
Transition-rank evaluate_price old new h = rw h (omega arith)
Transition-rank open_review old new h = rw h (omega arith)
Transition-rank resolve_review old new h = rw h (omega arith)
Transition-rank _ old new h = absurd h

-- What a batch may become: the same batch, in the same state or a later one.
pub record Progress (b b' : Batch) : Type 0 where
  pub identity : SameIdentity b b'
  pub rank : rank b.state ≤ rank b'.state

module _ (p : Platform) where
  -- The batch that a world state holds under an identifier.
  abbrev pub Stored : World → String → Batch → Type 0
  Stored w id b = load_bytes p.batch (some (w (key p "batch" (id ∷ [])))) zero_batch ≡ ok (true, b)

  pub Stored-unique :
      (w : World) (id : String) (a b : Batch) → Stored w id a → Stored w id b → a ≡ b
  Stored-unique w id a b h k = ap (λ (z : Bool × Batch). z.1) (ok-injective (sym h ∙ k))

  -- Bytes that stay hold the same batch.
  pub kept_batch :
      (w w' : World) (id : String) (b : Batch)
      → w' (key p "batch" (id ∷ [])) ≡ w (key p "batch" (id ∷ []))
      → Stored w id b
      → Stored w' id b
  kept_batch w w' id b e h =
      subst (λ o. load_bytes p.batch (some o) zero_batch ≡ ok (true, b)) (sym e) h

not_new : (c : Fn) → existence (is_create c) true ≡ ok tt → is_create c ≡ true → ⊥
unfolding existence is_create fail_if
not_new create_batch h new = err-ne-ok h
not_new _ h new = ground arith

module _ (p : Platform) (law : KeyLaw p) where
  batch_key-Foreign :
      (c : Command) (x : Execution) (id : String)
      → (batch_key p c == key p "batch" (id ∷ [])) ≡ false
      → Foreign p c x "batch" (id ∷ [])
  batch_key-Foreign c x id other = record {
    named = refl;
    evidence = refl;
    history = refl;
    owner = refl;
    state = refl;
    batch = other;
    operation = key-ne p law "operation" "batch" _ _ refl;
  }

  same_id :
      (c : Command) (id : String)
      → (batch_key p c == key p "batch" (id ∷ [])) ≡ true
      → c.batch_id ≡ id
  unfolding key
  same_id c id e =
      let keys : p.composite_key "batch" (c.batch_id ∷ []) ≡ p.composite_key "batch" (id ∷ []) =
        (eq_iff _ _).0 e in
      let attrs : c.batch_id ∷ [] ≡ id ∷ [] = (law.injective "batch" "batch" _ _ keys).1 in
      ground arith

  module _ (batches : BatchLaw p) (s : Ledger)
      (prepare : Command → Batch → EvidenceRefs → Result Verified) (respects : Respects p prepare)
      (c : Command) (x : Execution) (r : Receipt) (w : World) (serves : Serves s w)
      (h : (apply p s prepare c x).0 ≡ ok r) where
    -- The world state behind the command.
    abbrev Behind : World
    Behind = committed (apply p s prepare c x).1 w

    same_batch :
        (b : Batch)
        → Stored p w c.batch_id b
        → (b' : Batch) × Stored p Behind c.batch_id b' × Progress b b'
    unfolding load key
    same_batch b there =
        let a = apply-Advanced p s c x prepare law respects r h in
        let now : load_bytes p.batch (some (w (batch_key p c))) zero_batch ≡ ok (a.exists, a.old) =
          subst (λ o. load_bytes p.batch o zero_batch ≡ ok (a.exists, a.old))
            (serves.reads (batch_key p c)) a.loaded in
        let both : (a.exists, a.old) ≡ (true, b) = ok-injective (sym now ∙ there) in
        let old : a.old ≡ b = ap (λ (z : Bool × Batch). z.1) both in
        let exists : a.exists ≡ true = ap (λ (z : Bool × Batch). z.0) both in
        (
          a.new,
          kept_batch p Behind Behind c.batch_id a.new refl (
              subst (λ o. load_bytes p.batch (some o) zero_batch ≡ ok (true, a.new))
                (sym (a.stored w)) (batches.restores a.new a.batch_bytes a.batch_canonical)),
          subst (λ o. Progress o a.new) old
              (record {
                identity = elim a.identity [
                  | inl new ↦ absurd (
                      not_new c.command
                        (subst (λ t. existence (is_create c.command) t ≡ ok tt) exists a.existed)
                        new)
                  | inr same ↦ same
                ];
                rank = Transition-rank c.command a.old.state a.new.state a.transition;
              }),
        )

    pub apply-Progress :
        (id : String) (b : Batch)
        → Stored p w id b
        → (b' : Batch) × Stored p Behind id b' × Progress b b'
    apply-Progress id b there = elim (Bool-cases (batch_key p c == key p "batch" (id ∷ []))) [
      | inl e ↦
          subst (λ i. Stored p w i b → (b' : Batch) × Stored p Behind i b' × Progress b b')
            (same_id c id e) (same_batch b) there
      | inr e ↦ (
        b,
        kept_batch p w Behind id b
            (apply-frame p law s c x prepare respects r w "batch" (id ∷ [])
              (batch_key-Foreign c x id e) h)
            there,
        record { identity = SameIdentity-refl b; rank = omega arith },
      )
    ]

    pub apply-rules :
        ((id : String) (b : Batch) → Stored p w id b → WellFormed b)
        → (id : String) (b : Batch) → Stored p Behind id b
        → WellFormed b
    unfolding load
    apply-rules rules id b there = elim (Bool-cases (batch_key p c == key p "batch" (id ∷ []))) [
      | inl e ↦
          let (new, bytes, good, written, stored) =
            apply-WellFormed p s prepare law respects c x r
              (λ old found. rules c.batch_id old (
                subst (λ o. load_bytes p.batch o zero_batch ≡ ok (true, old))
                  (serves.reads (batch_key p c)) found))
              h in
          let k : batch_key p c ≡ key p "batch" (id ∷ []) = (eq_iff _ _).0 e in
          let holds : load_bytes p.batch (some (Behind (key p "batch" (id ∷ [])))) zero_batch
              ≡ ok (true, new) =
            subst (λ o. load_bytes p.batch (some o) zero_batch ≡ ok (true, new))
              (sym (ap Behind (sym k) ∙ stored w)) (batches.restores new bytes written) in
          subst WellFormed (Stored-unique p Behind id new b holds there) good
      | inr e ↦ rules id b (
          kept_batch p Behind w id b
            (sym (
              apply-frame p law s c x prepare respects r w "batch" (id ∷ [])
                (batch_key-Foreign c x id e) h))
            there)
    ]
