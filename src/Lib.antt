-- ===== src/Lib.antt =====
-- A model of the AgroChain chaincode (chaincode/agrochain/internal/agrochain, Go), with the theorems
-- on it. The chaincode tracks one batch of produce from its creation to its retail report: a command
-- is parsed and validated, its caller is authorised, the batch and its evidence are read from the
-- ledger, an evidence provider verifies signed documents, the command computes the next batch, and
-- all records are written as one plan.
--
-- Codes (validation.go): the error codes as a data type, and `Result`, a value or a code, for Go's
--   pair of a value and an error. Codes.Messages has the texts and `fail`.
-- Model (models.go): the records; Model.Zero, the zero values of Go. Go strings are String, int64
--   and int32 are ℤ of Base.Int, where add64, sub64 and mul64 wrap modulo 2 ^ 64, a raw JSON payload
--   is its bytes. A function name is a value of Fn: one constructor for each name that a switch of
--   the source tells apart, and `other` for the rest; fn_name gives the text.
-- Text, Text.Decimal (validation.go): identifiers, plain strings, explanations, numbers and dates. The
--   regular expressions are functions on the code points.
-- Json (validation.go): strictJSON and tokenValue over the token stream of encoding/json's decoder.
--   The depth limit of the source is the argument of token_value (9 levels), and its limits of 16
--   items and 32 fields are the room of the two loops, so the recursion is structural and no fuel is
--   added. Json.Print describes the accepted documents without the reader.
-- Platform: what the chaincode calls and does not implement, as a record of functions: the composite
--   keys of the Fabric shim, the codecs of encoding/json for each type, the token streams, base64,
--   SHA-256 and ed25519. key, canonical, strictJSON and decode are written over it. Theorems that
--   need more of it take it as a hypothesis: KeyLaw (composite keys are injective), ReceiptLaw (a receipt is not encoded as no
--   bytes), BatchLaw (the encoding of a batch is read back) and Base64Law (so is base64).
-- Ledger (ledger.go): reads, the write plan (an association list for Go's map, nil for a key to
--   delete) and its flush. The stub is a record: what it reads, which operations it refuses. A flush
--   returns the operations that were staged beside its result, as Go returns an error after some
--   writes. Ledger.Plan says what Fabric's commit of those operations does to the world state.
-- Auth, Payload (validation.go): authorize, parseCommand, validatePayload. Auth.Matrix and
--   Payload.Bounds have their theorems.
-- Step, Step.Create, Step.Handoff, Step.Retail, Step.Documents (domain.go): the cases of the switch of
--   engine.apply, each a function to an Outcome: the batch, the references, the plan, the object
--   identifiers and the event name behind the switch. Step.Facts inverts them, Step.Evidence has the
--   money and the documents.
-- Engine (domain.go): engine.apply. admit, load_refs, the provider, run and conclude only read, and
--   are one chain of results; write_all writes. The provider is an argument, as it is an interface in
--   the source; Respects says that it plans no write of the keys of the common end.
--   Engine.Effects and Engine.Staged have what is staged, Engine.Accepted what an accepted command has passed,
--   Engine.Lifecycle and Engine.Custody what the switch does to the batch, Engine.Written and
--   Engine.Commits what the commit leaves, Engine.Advance, Engine.Stored and Engine.Replay the
--   theorems on whole commands.
-- Score (analysis.go): priceScore. Score.Exact compares it with exact arithmetic, Score.Range has the
--   prices and thresholds that it refuses.
-- Query (queries.go, getConfig of evidence.go): the reads. Query.Pages is about pages, Query.Recovery
--   about the receipt of a committed command. The release version, which the build sets, is an
--   argument.
-- Evidence (evidence.go): signed source documents. exact, encodedExact and rawURL, the commitment,
--   verifyBundle. Evidence.Types has the JSON tags that reflection reads off the struct types,
--   Evidence.Bundles decodeBundles, Evidence.Bootstrap the bootstrap. Evidence.Trust inverts
--   verifyBundle, Evidence.Commitment reads the hashed bytes back, Evidence.Binding compares two
--   documents with one commitment, Evidence.Bootstrap.Systems and Evidence.Bootstrap.Keys are about
--   what a bootstrap writes. Model.Evidence has the records.
-- Provider (private.go, analysis.go): realEvidence, the provider that the engine runs with.
--   Provider.Prepare is prepare, Provider.Claims its switch on the document type, Provider.Review the
--   analysis: evaluate for EvaluatePrice and review_evidence for the two review commands, which are the
--   two branches of the function analysis. Provider.Keys proves the interface Respects,
--   Provider.Documents, Provider.Analysis, Provider.Reviews and Provider.Exact say what accepted
--   evidence is.
-- Private (private.go, analysis.go): mayRead, privateQuery, analysisQuery and verifyOpening.
--   Private.Secrecy compares what two ledgers answer, Private.Openings is about verifyOpening.
-- Contract (contract.go): isMutation and executionFromStub, Contract.Dispatch dispatch and Invoke,
--   Contract.Adapter the ledger over the stub with its pages. What the client identity and the stub
--   tell of a proposal is the record Call. Contract.Clock compares executionFromStub with what
--   engine.apply demands, by the round trip of decimal numbers in Text.Decimal.Roundtrip,
--   Contract.Reads is about what stages nothing, Contract.Callers about who is behind what has an
--   effect.
-- History: whole histories of the world state, as a step relation: the commits of accepted commands
--   (domain.go) and of bootstraps (evidence.go) in any number and order. History.Receipts,
--   History.Held and History.Batches are about what stays along a history, History.Invoked about the proposals of
--   contract.go. A step reads the very state that it changes, as Fabric's validation of read versions
--   ensures; private data and index pages may be anything at each step.
-- Examples: concrete platforms, ledgers and stubs, runs, and the theorems at them.
--
-- Bounds and fuel: print_digits has 20 rounds, and every 64-bit number has at most 20 digits. No
-- other recursion has fuel.
--
-- Not modelled: the panic of key on a composite key that the shim refuses (attributes that are no
-- UTF-8 or hold U+0000 or U+10FFFF); the inside of encoding/json, ed25519, SHA-256 and base64; the
-- panic of a type assertion on a value that was decoded into a struct before and so is an object (the
-- model refuses it); Contract.Init, which only refuses; the server (cmd/server), the Java backend, the
-- network and the scripts.
pub mod Base
pub mod Codes
pub mod Score
pub mod Query
pub mod Contract
pub mod Text
pub mod Model
pub mod Json
pub mod Platform
pub mod Ledger
pub mod Auth
pub mod Payload
pub mod Step
pub mod Engine
pub mod Evidence
pub mod Provider
pub mod Private
pub mod History
pub mod Examples
