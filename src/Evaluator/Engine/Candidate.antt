-- ===== src/Evaluator/Engine/Candidate.antt =====
-- `assertRelease`, `evaluateCandidate`, `evaluateObservedCandidate` and `replayEvaluationRun` of
-- packages/weave/src/evaluator/engine.ts.
use domain_eval_weave.Base.{
  ◌+◌, String, Bool, false, ◌&&◌, ◌||◌, Option, none, some, List, [], ◌∷◌, map, filter, is_empty,
  not, ◌==◌, template, starts_with, take, drop, codes_count, pos,
}
use domain_eval_weave.Base.Result.{
  capsule_error, canonical_json_error, Result, ok, err, require, ◌>>=◌, ◌>>◌,
}
use domain_eval_weave.Json.{JsonValue, canonical_json}
use domain_eval_weave.Json.Build.{array}
use domain_eval_weave.Platform.{Platform, canonical_json_digest}
use domain_eval_weave.Capsule.Contracts.{
  CapsuleCandidate, ReleaseEntry, CapsuleRelease, Diagnostic, EvaluationRun, LoadedCapsule,
}
use domain_eval_weave.Capsule.Lookup.{find_candidate}
use domain_eval_weave.Capsule.Schema.Patterns.{sha256_matches}
use domain_eval_weave.Capsule.Schema.Parse.{parse_evaluation_run}
use domain_eval_weave.Evaluator.Observation.{CandidateExecution}
use domain_eval_weave.Evaluator.Rebuild.{rebuild_run}
use domain_eval_weave.Evaluator.Encode.{entry_json, release_json, run_json}
use domain_eval_weave.Evaluator.Engine.Run.{
  PersistedEvaluationRun, evaluate_execution, plain_diagnostic,
}

-- `ReleasedCapsule` of packages/weave/src/capsule/release.ts.
pub record ReleasedCapsule : Type 0 where
  pub release : CapsuleRelease
  pub sha256 : String
  pub ref : String

-- What `runner.run` does: it resolves, or rejects with an error's message or with no error.
pub data RunnerOutcome : Type 0 where
  finished : CandidateExecution → RunnerOutcome
  threw : Option String → RunnerOutcome

abbrev pub Runner : Type 0
Runner = CapsuleCandidate → RunnerOutcome

-- A Candidate and the digest of its files in a Release.
pub record BoundCandidate : Type 0 where
  pub candidate : CapsuleCandidate
  pub candidate_sha256 : String

-- The execution that stands for a runner that threw.
abbrev pub no_execution : CandidateExecution
no_execution = record {
  exit_code = none;
  signal = none;
  stdout = "";
  stderr = "";
  timed_out = false;
  output_limit_exceeded = false;
}

abbrev pub error_message : Option String → String
error_message none = "Candidate runner failed"
error_message (some message) = message

abbrev pub runner_execution : RunnerOutcome → CandidateExecution
runner_execution (finished execution) = execution
runner_execution (threw message) = no_execution

abbrev pub runner_diagnostics : RunnerOutcome → List Diagnostic
runner_diagnostics (finished execution) = []
runner_diagnostics (threw message) =
    plain_diagnostic "CANDIDATE_RUNNER_ERROR" (error_message message) ∷ []

-- The entries of a Release at or below a Candidate's path.
unfoldable pub candidate_entries : CapsuleCandidate → CapsuleRelease → List ReleaseEntry
unfolding starts_with
candidate_entries candidate release =
    filter
      (λ e.
        ReleaseEntry.path e == candidate.path
        || starts_with e.path (template (candidate.path ∷ "/" ∷ [])))
      release.entries

module _ (p : Platform) where
  unfoldable pub assert_release : LoadedCapsule → ReleasedCapsule → Result (Unit {0})
  assert_release capsule released = do
    let mismatch =
        capsule_error "CAPSULE_RELEASE_MISMATCH" "Release does not match loaded Capsule" none
    require (released.release.capsule_id == capsule.manifest.capsule_id) mismatch
    require (released.release.capsule_version == capsule.manifest.version) mismatch
    digest ← canonical_json_digest p (release_json released.release)
    require (digest == released.sha256) mismatch

  -- `evaluateCandidate` up to the call of the runner.
  unfoldable pub bind_candidate : LoadedCapsule → ReleasedCapsule → String → Result BoundCandidate
  unfolding candidate_entries
  bind_candidate capsule released candidate_id = do
    assert_release capsule released
    candidate ← find_candidate capsule candidate_id
    let entries = candidate_entries candidate released.release
    require (not (is_empty entries)) (
        capsule_error "CAPSULE_CANDIDATE_CLOSURE_MISSING"
          (template ("Release does not bind Candidate " ∷ candidate.candidate_id ∷ [])) none)
    candidate_sha256 ← canonical_json_digest p (array (map entry_json entries))
    ok (record { candidate = candidate; candidate_sha256 = candidate_sha256 })

  -- The rest of `evaluateCandidate`, on what the runner answers.
  unfoldable pub judge_candidate :
      LoadedCapsule
      → ReleasedCapsule
      → String
      → String
      → BoundCandidate
      → RunnerOutcome
      → Result PersistedEvaluationRun
  judge_candidate capsule released evaluator_ref requirement_id bound outcome =
      evaluate_execution p (record {
        capsule = capsule;
        release_sha256 = released.sha256;
        evaluator_ref = evaluator_ref;
        requirement_id = requirement_id;
        candidate_id = bound.candidate.candidate_id;
        candidate_sha256 = bound.candidate_sha256;
        execution = runner_execution outcome;
        initial_diagnostics = runner_diagnostics outcome;
      })

  unfoldable pub evaluate_candidate :
      LoadedCapsule
      → ReleasedCapsule
      → String
      → String
      → String
      → Runner
      → Result PersistedEvaluationRun
  unfolding bind_candidate judge_candidate
  evaluate_candidate capsule released evaluator_ref requirement_id candidate_id runner = do
    bound ← bind_candidate capsule released candidate_id
    judge_candidate capsule released evaluator_ref requirement_id bound (runner bound.candidate)

  -- `catch (error)` around the serialiser.
  abbrev observation_text : Result String → Result String
  observation_text (ok text) = ok text
  observation_text (err (canonical_json_error message)) =
      err (capsule_error "CAPSULE_OBSERVATION_INVALID" message none)
  observation_text (err other) =
      err (capsule_error "CAPSULE_OBSERVATION_INVALID" "Observed Candidate output is not JSON" none)

  unfoldable pub evaluate_observed_candidate :
      LoadedCapsule
      → ReleasedCapsule
      → String
      → String
      → String
      → String
      → JsonValue
      → Result PersistedEvaluationRun
  evaluate_observed_candidate capsule released evaluator_ref requirement_id candidate_id
        candidate_sha256 observation =
      do
        assert_release capsule released
        stdout ← observation_text (canonical_json observation)
        evaluate_execution p (record {
          capsule = capsule;
          release_sha256 = released.sha256;
          evaluator_ref = evaluator_ref;
          requirement_id = requirement_id;
          candidate_id = candidate_id;
          candidate_sha256 = candidate_sha256;
          execution = record {
            exit_code = some (pos 0);
            signal = none;
            stdout = stdout;
            stderr = "";
            timed_out = false;
            output_limit_exceeded = false;
          };
          initial_diagnostics = [];
        })

-- `/^prefix[0-9a-f]{64}\.json$/`
unfoldable pub artifact_ref_matches : String → String → Bool
unfolding starts_with sha256_matches take drop codes_count
artifact_ref_matches prefix ref =
    starts_with ref prefix
    && sha256_matches (take 64 (drop (codes_count prefix) ref))
    && drop (codes_count prefix + 64) ref == ".json"

-- `ref.slice(prefix.length, -".json".length)`, of a reference that matches.
unfoldable pub artifact_digest : String → String → String
unfolding take drop codes_count
artifact_digest prefix ref = take 64 (drop (codes_count prefix) ref)

-- `replayEvaluationRun`. `stored` reads a file of the Capsule and decodes its JSON, and
-- `read_release` is `readCapsuleRelease`; each may throw.
unfoldable pub replay_evaluation_run :
    Platform
    → (String → Result EvaluationRun)
    → (String → Result CapsuleRelease)
    → String
    → Result EvaluationRun
replay_evaluation_run p stored read_release ref = do
  require (artifact_ref_matches ".eval/runs/" ref)
      (capsule_error "CAPSULE_RUN_REF_INVALID" "Run ref is invalid" (some ref))
  decoded ← stored ref
  run ← parse_evaluation_run decoded
  digest ← canonical_json_digest p (run_json run)
  require (digest == artifact_digest ".eval/runs/" ref)
      (capsule_error "CAPSULE_RUN_DRIFT" "Run digest drifted" (some ref))
  release ← read_release (template (".eval/releases/" ∷ run.capsule_release_sha256 ∷ ".json" ∷ []))
  rebuilt ← rebuild_run run
  text ← canonical_json (run_json rebuilt)
  expected ← canonical_json (run_json run)
  require (text == expected)
      (capsule_error "CAPSULE_RUN_DRIFT" "Run cannot be mechanically rebuilt" (some ref))
  ok run
