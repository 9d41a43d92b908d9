-- ===== src/History/Batches.antt =====
-- The batches of a history: which rules they keep, and what of them never changes.
use agro_chain.Base.{String, [], ◌∙◌, refl, sym, arith}
use agro_chain.Model.{Batch}
use agro_chain.Platform.{Platform}
use agro_chain.Ledger.{load_bytes}
use agro_chain.Ledger.Plan.{committed}
use agro_chain.Engine.{apply}
use agro_chain.Engine.Custody.{WellFormed}
use agro_chain.Engine.Lifecycle.{SameIdentity-refl, SameIdentity-trans}
use agro_chain.Engine.Written.{KeyLaw}
use agro_chain.Evidence.Bootstrap.Keys.{bootstrap-frame}
use agro_chain.History.{World, Step, Reaches, accepted, configured, unchanged, start, after}
use agro_chain.History.Held.{BatchLaw, Progress, Stored, kept_batch, apply-Progress, apply-rules}

module _ (p : Platform) (law : KeyLaw p) where
  module _ (batches : BatchLaw p) where
    step-Progress :
        {w w' : World} (id : String) (b : Batch)
        → Step p w w'
        → Stored p w id b
        → (b' : Batch) × Stored p w' id b' × Progress b b'
    step-Progress id b (accepted s prepare c x r w w' serves respects h done) there =
        let (b', stored, progress) =
          apply-Progress p law batches s prepare respects c x r w serves h id b there in
        (
          b',
          kept_batch p (committed (apply p s prepare c x).1 w) w' id b' (done _) stored,
          progress,
        )
    step-Progress id b (configured s x raw c w w' serves h done) there = (
      b,
      kept_batch p w w' id b (done _ ∙ bootstrap-frame p law s x raw c w "batch" _ refl h) there,
      record { identity = SameIdentity-refl b; rank = omega arith },
    )
    step-Progress id b (unchanged w w' done) there = (
      b,
      kept_batch p w w' id b (done _) there,
      record { identity = SameIdentity-refl b; rank = omega arith },
    )

    -- A batch that the world state holds is never lost: every later world state holds a batch under the
    -- same identifier, with the same product, grade, quantity, origin, harvest, route and creation, and
    -- in the same state of the lifecycle or a later one.
    pub reached-Progress :
        {w v : World} (id : String) (b : Batch)
        → Reaches p w v
        → Stored p w id b
        → (b' : Batch) × Stored p v id b' × Progress b b'
    reached-Progress id b start there =
        (b, there, record { identity = SameIdentity-refl b; rank = omega arith })
    reached-Progress id b (after earlier step) there =
        let (m, held, first) = reached-Progress id b earlier there in
        let (b', stored, next) = step-Progress id m step held in
        (
          b',
          stored,
          record {
            identity = SameIdentity-trans b m b' first.identity next.identity;
            rank = let one = first.rank in let two = next.rank in omega arith;
          },
        )

    step-rules :
        {w w' : World}
        → Step p w w'
        → ((id : String) (b : Batch) → Stored p w id b → WellFormed b)
        → (id : String) (b : Batch) → Stored p w' id b
        → WellFormed b
    step-rules (accepted s prepare c x r w w' serves respects h done) rules id b there =
        apply-rules p law batches s prepare respects c x r w serves h rules id b
          (kept_batch p w' (committed (apply p s prepare c x).1 w) id b (sym (done _)) there)
    step-rules (configured s x raw c w w' serves h done) rules id b there = rules id b (
        kept_batch p w' w id b (sym (done _ ∙ bootstrap-frame p law s x raw c w "batch" _ refl h))
          there)
    step-rules (unchanged w w' done) rules id b there =
        rules id b (kept_batch p w' w id b (sym (done _)) there)

    reached-rules :
        {w v : World}
        → Reaches p w v
        → ((id : String) (b : Batch) → Stored p w id b → WellFormed b)
        → (id : String) (b : Batch) → Stored p v id b
        → WellFormed b
    reached-rules start rules = rules
    reached-rules (after earlier step) rules = step-rules step (reached-rules earlier rules)

    -- Every batch that a world state holds which is reached from the empty one by accepted commands and
    -- bootstraps obeys the rules: its state is one of the lifecycle, its owner and its custodian are
    -- those of the state, the route and the quantity are valid, and it has a retail lot exactly once its
    -- price is reported.
    pub reached-WellFormed :
        {v : World} (id : String) (b : Batch)
        → Reaches p (λ k. []) v
        → Stored p v id b
        → WellFormed b
    unfolding load_bytes
    reached-WellFormed id b history there =
        reached-rules history (λ i a none. absurd (ground arith)) id b there
