-- ===== src/History.antt =====
-- Whole histories of the world state: what the commits of `engine.apply` (domain.go) and of `bootstrap`
-- (evidence.go) do to it, one after the other. Fabric commits the writes of a proposal only against the
-- state that the proposal read, so a step reads the very state that it changes.
pub mod Receipts
pub mod Held
pub mod Batches
pub mod Invoked
use agro_chain.Base.{String, some, ◌≡◌}
use agro_chain.Codes.{Result, ok}
use agro_chain.Model.{Bytes, Command, Batch, EvidenceRefs, Receipt, Configuration}
use agro_chain.Platform.{Platform}
use agro_chain.Ledger.{Ledger}
use agro_chain.Ledger.Plan.{committed}
use agro_chain.Step.{Execution, Verified}
use agro_chain.Engine.{apply}
use agro_chain.Engine.Written.{Respects}
use agro_chain.Evidence.Bootstrap.{bootstrap}

-- The world state: the bytes of each key, none for a key that is not there.
abbrev pub World : Type 0
World = String → Bytes

-- A ledger that reads a world state.
pub record Serves (s : Ledger) (w : World) : Type 0 where
  pub reads : (k : String) → s.read k ≡ some (w k)

-- A step: the commit of a command that was accepted, of a bootstrap, or of nothing.
pub data Step (p : Platform) : World → World → Type 0 where
  accepted :
      (s : Ledger) (prepare : Command → Batch → EvidenceRefs → Result Verified) (c : Command)
      (x : Execution) (r : Receipt) (w w' : World)
      → Serves s w
      → Respects p prepare
      → (apply p s prepare c x).0 ≡ ok r
      → ((k : String) → w' k ≡ committed (apply p s prepare c x).1 w k)
      → Step p w w'
  configured :
      (s : Ledger) (x : Execution) (raw : Bytes) (c : Configuration) (w w' : World)
      → Serves s w
      → (bootstrap p s x raw).0 ≡ ok c
      → ((k : String) → w' k ≡ committed (bootstrap p s x raw).1 w k)
      → Step p w w'
  unchanged : (w w' : World) → ((k : String) → w' k ≡ w k) → Step p w w'

-- Any number of steps.
pub data Reaches (p : Platform) (w : World) : World → Type 0 where
  start : Reaches p w w
  after : {v u : World} → Reaches p w v → Step p v u → Reaches p w u
