-- ===== src/Lib.antt =====
-- DomainEval Weave judges Candidates against a Capsule: a set of documents in which owners confirm
-- Claims about a domain, a Requirement names the Claims it touches, and an Evaluator has checks for
-- them. Around it stand the graph of what a product's documents say about a domain, the Campaigns
-- that compare two ways of working, the ledger of which Task a model has seen, and the evaluation of
-- an episode. This library models these parts.
--
-- The parts, with the code that each file models (paths from the repository's root):
--   Base            lists, texts, sorting, integers and the errors that functions throw
--   Json            src/contracts/canonical-json.ts: `serialize`, `canonicalJson`
--   Platform        SHA-256 and `JSON.parse`, which Node.js provides, as fields of a record;
--                   `canonicalJsonDigest`
--   Capsule         packages/weave/src/capsule: Contracts and Schema model contracts.ts; Lookup,
--                   Semantics, Load and Confirm model `find…`, `validateSemantics`,
--                   `loadCapsule` and `confirmCapsuleClaim` of loader.ts; Readiness models
--                   readiness.ts
--   Artifacts       packages/weave/src/capsule/artifact-store.ts
--   Evaluator       packages/weave/src/evaluator: Observation, Check, Rebuild and Engine model
--                   engine.ts, with the result of command-runner.ts as an argument; Calibration
--                   models calibration.ts
--   Harness         packages/weave/src/harness/projection.ts
--   Campaign        src/campaign/state.ts
--   Domain          the claims of a product: Contracts and Schema model src/domain/contracts.ts, Graph
--                   models graph.ts (`buildClaimDependencyGraph`, `impactedByClaim`,
--                   `assertClaimDependencyGraph`), Readiness models readiness.ts; Search and Cycle
--                   are the two searches that these run, over an Index from a node to its neighbours
--   Exposure        src/exposure/ledger.ts, with `parseExposureRecord` of src/contracts/phase2.ts and
--                   `parseArtifactRef` of src/contracts/artifact-ref.ts in Documents;
--                   Trace has the steps in which calls of several processes interleave
--   Validity        `evaluationFromEvidence` of src/validity/evaluation.ts and the refinement of
--                   `evaluationResultSchema` in src/contracts/parsers.ts
--   Tests           concrete documents, runs and files, and the theorems applied to them
--
-- The Capsule's documents reach the Evaluator through `LoadedCapsule`; the Engine's Runs are stored
-- as Artifacts, rebuilt by Rebuild and compared by Calibration. The readiness report reads the graph
-- that Graph builds. Errors are those of Base/Result in every part.
--
-- Functions that throw return a `Result`; the loops are recursions on lists, but for two. `explore`
-- of Domain/Search runs on fuel, the number of starts and of all entries of the index: a round takes
-- one entry off the worklist, and a node's neighbours are put there once. `visit` of Domain/Cycle
-- runs on a depth, one more than the number of nodes in the index: the nodes on its path differ.
-- A document is a record, as the schemas decode it, and a schema is a Boolean test on the record.
-- A file that is read is an argument, which may throw. What the platform provides is a field of a
-- record that the code takes: SHA-256, `JSON.parse`, the order of `localeCompare`, `Date.parse` and the
-- date-time test of zod.
--
-- Not modelled: the walk over the file system in release.ts, YAML, the sandboxed child process,
-- the command line, and the experiments under src/commerce and src/phase3c, which are I/O around
-- these parts; nor are the checks that the ledger's directories are private, the temporary file
-- that it links, the interviews and packs of src/domain, and src/validity/reconstruction.ts. A
-- Campaign's phase that the state file gives as an array of one name, and keys of that file that
-- no operation reads, are left out.
pub mod Base
pub mod Json
pub mod Capsule
pub mod Platform
pub mod Evaluator
pub mod Artifacts
pub mod Harness
pub mod Tests
pub mod Campaign
pub mod Domain
pub mod Exposure
pub mod Validity
