-- ===== src/Ledger/Plan.antt =====
-- What a write plan holds, and what a flushed plan does to the world state.
use agro_chain.Base.{
  String, Bool, true, false, ◌||◌, List, [], ◌∷◌, ◌++◌, Option, none, some, map, ◌≡◌, ◌≢◌, refl,
  ◌∙◌, ap, arith, contains, ◌==◌, eq_iff, if◌then◌else◌,
}
use agro_chain.Codes.{Result, ok, err, internal_error}
use agro_chain.Model.{Bytes, Event}
use agro_chain.Platform.{Platform, canonical}
use agro_chain.Ledger.{
  Op, put, remove, put_private, emit, Ledger, WritePlan, assign, planned, overlay, insert_text,
  sort_texts, keys, op_of, stage, plan_ops, flush,
}

pub planned-assign :
    (k j : String) (v : Option Bytes) (p : WritePlan)
    → planned j (assign k v p) ≡ (if k == j then some v else planned j p)
unfolding planned assign
planned-assign k j v [] = refl
planned-assign k j v ((i, w) ∷ p) =
    ground (arith, eq_iff k j, eq_iff i k, eq_iff i j, planned-assign k j v p)

-- A key of the overlay comes from the second plan where that has it.
pub planned-overlay :
    (p q : WritePlan) (j : String)
    → planned j (overlay p q) ≡ elim (planned j q) [ none ↦ planned j p | some v ↦ some v ]
unfolding planned overlay
planned-overlay p [] j = refl
planned-overlay p ((k, v) ∷ q) j =
    planned-assign k j v (overlay p q) ∙ rw (planned-overlay p q j) (ground arith)

-- The world state that Fabric commits for the staged operations: the last write of a key wins, and a
-- removed key reads as empty. Private data and events are not in the world state.
abbrev pub committed : List Op → (String → Bytes) → String → Bytes
committed [] w k = w k
committed (put j v ∷ os) w k = committed os (λ i. if j == i then v else w i) k
committed (remove j ∷ os) w k = committed os (λ i. if j == i then [] else w i) k
committed (put_private c j v ∷ os) w k = committed os w k
committed (emit n v ∷ os) w k = committed os w k

pub committed-append :
    (os os' : List Op) (w : String → Bytes) (k : String)
    → committed (os ++ os') w k ≡ committed os' (committed os w) k
committed-append [] os' w k = refl
committed-append (put j v ∷ os) os' w k = committed-append os os' _ k
committed-append (remove j ∷ os) os' w k = committed-append os os' _ k
committed-append (put_private c j v ∷ os) os' w k = committed-append os os' w k
committed-append (emit n v ∷ os) os' w k = committed-append os os' w k

-- The bytes of a key after the plan, over what was there.
abbrev pub after_plan : Option (Option Bytes) → Bytes → Bytes
after_plan none old = old
after_plan (some none) old = []
after_plan (some (some v)) old = v

contains-insert :
    (k t : String) (ts : List String) → contains k (insert_text t ts) ≡ (k == t || contains k ts)
unfolding insert_text
contains-insert k t [] = refl
contains-insert k t (u ∷ ts) = ground (arith, contains-insert k t ts)

contains-sort : (k : String) (ts : List String) → contains k (sort_texts ts) ≡ contains k ts
unfolding sort_texts
contains-sort k [] = refl
contains-sort k (t ∷ ts) =
    contains-insert k t (sort_texts ts) ∙ ap (λ b. k == t || b) (contains-sort k ts)

planned-none : (k : String) (p : WritePlan) → contains k (keys p) ≡ false → planned k p ≡ none
unfolding planned keys
planned-none k [] h = refl
planned-none k ((j, v) ∷ p) h = ground (arith, planned-none k p, eq_iff j k, eq_iff k j)

planned-some : (k : String) (p : WritePlan) → contains k (keys p) ≡ true → planned k p ≢ none
unfolding planned keys
planned-some k [] h e = ground arith
planned-some k ((j, v) ∷ p) h e = ground (arith, planned-some k p, eq_iff j k, eq_iff k j)

abbrev written : Option (Option Bytes) → Bytes
written (some (some v)) = v
written _ = []

committed-op :
    (p : WritePlan) (j : String) (os : List Op) (w : String → Bytes) (k : String)
    → committed (op_of p j ∷ os) w k
      ≡ committed os (λ i. if j == i then written (planned j p) else w i) k
unfolding op_of
committed-op p j os w k = go (planned j p) refl
  where
    go :
        (o : Option (Option Bytes))
        → planned j p ≡ o
        → committed (op_of p j ∷ os) w k
          ≡ committed os (λ i. if j == i then written (planned j p) else w i) k
    go none e = rw (e, op_of) refl
    go (some none) e = rw (e, op_of) refl
    go (some (some b)) e = rw (e, op_of) refl

committed-ops :
    (p : WritePlan) (ks : List String) (w : String → Bytes) (k : String)
    → committed (map (op_of p) ks) w k ≡ (if contains k ks then written (planned k p) else w k)
committed-ops p [] w k = refl
committed-ops p (j ∷ ks) w k =
    committed-op p j (map (op_of p) ks) w k
    ∙ committed-ops p ks (λ i. if j == i then written (planned j p) else w i) k
    ∙ ground (arith, eq_iff j k, eq_iff k j)

written-eq : (o : Option (Option Bytes)) (b : Bytes) → o ≢ none → written o ≡ after_plan o b
written-eq none b h = absurd (h refl)
written-eq (some none) b h = refl
written-eq (some (some v)) b h = refl

pub committed-plan_ops :
    (p : WritePlan) (w : String → Bytes) (k : String)
    → committed (plan_ops p) w k ≡ after_plan (planned k p) (w k)
unfolding plan_ops
committed-plan_ops p w k =
    committed-ops p (sort_texts (keys p)) w k ∙ rw contains-sort (split (contains k (keys p)) refl)
  where
    split :
        (b : Bool)
        → contains k (keys p) ≡ b
        → (if contains k (keys p) then written (planned k p) else w k)
          ≡ after_plan (planned k p) (w k)
    split true e = rw e (written-eq (planned k p) (w k) (planned-some k p e))
    split false e = rw (e, planned-none k p e) refl

-- Operations that are staged without an error are staged whole.
pub stage-all : (s : Ledger) (os : List Op) → (stage s os).0 ≡ ok tt → (stage s os).1 ≡ os
unfolding stage
stage-all s [] h = refl
stage-all s (o ∷ os) h = split (s.refuses o) refl (stage-all s os) h
  where
    split :
        (b : Bool)
        → s.refuses o ≡ b
        → ((stage s os).0 ≡ ok tt → (stage s os).1 ≡ os)
        → (stage s (o ∷ os)).0 ≡ ok tt
        → (stage s (o ∷ os)).1 ≡ o ∷ os
    split true e ih h' = let bad : err internal_error ≡ ok tt = rw (e, stage) at h' in ground arith
    split false e ih h' =
        let fine : (stage s os).0 ≡ ok tt = rw (e, stage) at h' in
        rw (e, stage) (ap (λ r. o ∷ r) (ih fine))

-- If the flush of a plan reports no error, then committing the staged operations gives every key of
-- the plan its planned bytes, empties every key that the plan deletes, and leaves all others alone,
-- whatever the order in which the keys were written.
pub committed-flush :
    (p : Platform) (s : Ledger) (plan : WritePlan) (event : Event) (w : String → Bytes) (k : String)
    → (flush p s plan event).0 ≡ ok tt
    → committed (flush p s plan event).1 w k ≡ after_plan (planned k plan) (w k)
unfolding flush
committed-flush p s plan event w k h = go (canonical p p.event event) refl h
  where
    go :
        (r : Result Bytes)
        → canonical p p.event event ≡ r
        → (flush p s plan event).0 ≡ ok tt
        → committed (flush p s plan event).1 w k ≡ after_plan (planned k plan) (w k)
    go (err e) eq h' = let bad : err e ≡ ok tt = rw (eq, flush) at h' in ground arith
    go (ok b) eq h' =
        let os = plan_ops plan ++ emit event.event_type b ∷ [] in
        let fine : (stage s os).0 ≡ ok tt = rw (eq, flush) at h' in
        rw (eq, flush)
          (rw (stage-all s os fine) (
            committed-append (plan_ops plan) (emit event.event_type b ∷ []) w k
            ∙ committed-plan_ops plan w k))
