-- ===== src/Evaluator/Engine/Laws/Replay.antt =====
-- Replaying the Run that an evaluation made (packages/weave/src/evaluator/engine.ts).
use domain_eval_weave.Base.{
  ◌≡◌, ◌∙◌, subst, refl, arith, String, true, ◌==◌, eq_refl, [], ◌∷◌, template, starts_with, drop,
  codes_count, ◌+◌, and_intro,
}
use domain_eval_weave.Base.Text.Laws.{starts_with-append, take-append, drop-append, drop-add}
use domain_eval_weave.Base.Result.{Result, ok, ok-inj, >>=-eq-ok}
use domain_eval_weave.Json.{canonical_json}
use domain_eval_weave.Platform.{Platform, IsHexDigest, canonical_json_digest}
use domain_eval_weave.Capsule.Contracts.{EvaluationRun, CapsuleRelease}
use domain_eval_weave.Capsule.Schema.Patterns.{sha256_matches}
use domain_eval_weave.Capsule.Schema.Parse.{parse_evaluation_run_of_fits}
use domain_eval_weave.Evaluator.Encode.{run_json}
use domain_eval_weave.Evaluator.Engine.Run.{
  PersistedEvaluationRun, ExecutionInput, evaluate_execution,
}
use domain_eval_weave.Evaluator.Engine.Candidate.{
  artifact_ref_matches, artifact_digest, replay_evaluation_run,
}
use domain_eval_weave.Evaluator.Engine.Laws.Verdict.{
  evaluate_execution-Evaluates, evaluate_execution-fits, evaluate_execution-rebuild_run,
  evaluate_execution-binds,
}
use text.Mathlib.TextLemmas.{append-nil}

module _ (prefix digest : String) (hex : sha256_matches digest ≡ true) where
  abbrev ref : String
  ref = template (prefix ∷ digest ∷ ".json" ∷ [])

  digest-count : codes_count digest ≡ 64
  unfolding sha256_matches
  digest-count = ground arith

  slice-digest : artifact_digest prefix ref ≡ digest
  unfolding artifact_digest template
  slice-digest = rw (drop-append prefix, ← digest-count) (take-append digest _)

  rest-after-digest : drop (codes_count prefix + 64) ref ≡ ".json"
  unfolding template
  rest-after-digest =
      rw (drop-add, drop-append prefix, ← digest-count) (drop-append digest _ ∙ append-nil ".json")

  ref-matches : artifact_ref_matches prefix ref ≡ true
  unfolding artifact_ref_matches artifact_digest
  ref-matches =
      let a : starts_with ref prefix ≡ true = unfold template in starts_with-append prefix _ in
      let b : sha256_matches (artifact_digest prefix ref) ≡ true = rw slice-digest hex in
      let c : (drop (codes_count prefix + 64) ref == ".json") ≡ true =
        rw rest-after-digest (eq_refl ".json") in
      and_intro _ _ (and_intro _ _ a b) c

canonical_of_digest :
    (p : Platform) (run : EvaluationRun) (sha256 : String)
    → canonical_json_digest p (run_json run) ≡ ok sha256
    → (text : String) × (canonical_json (run_json run) ≡ ok text) × (p.sha256_hex text ≡ sha256)
unfolding canonical_json_digest
canonical_of_digest p run sha256 h =
    let (text, written, same) = >>=-eq-ok (canonical_json (run_json run)) _ h in
    (text, written, ok-inj _ _ same)

-- Replaying the reference of an evaluated Run returns that Run, where every digest is 64 hexadecimal
-- digits, the file of the reference holds the Run and the Release that it names can be read.
pub replay_evaluation_run-evaluate_execution :
    (p : Platform) (input : ExecutionInput) (out : PersistedEvaluationRun)
    (stored : String → Result EvaluationRun) (read_release : String → Result CapsuleRelease)
    (release : CapsuleRelease)
    → IsHexDigest p
    → evaluate_execution p input ≡ ok out
    → stored out.ref ≡ ok out.run
    → read_release (template (".eval/releases/" ∷ out.run.capsule_release_sha256 ∷ ".json" ∷ []))
      ≡ ok release
    → replay_evaluation_run p stored read_release out.ref ≡ ok out.run
unfolding replay_evaluation_run
replay_evaluation_run-evaluate_execution p input out stored read_release release hex returned kept
      readable =
    let v = evaluate_execution-Evaluates p input out returned in
    let binds =
      evaluate_execution-binds p input out returned v.requirement v.evaluator v.found_requirement
        v.found_evaluator in
    let (text, written, digest) = canonical_of_digest p out.run out.sha256 binds.7 in
    let is_hex : sha256_matches out.sha256 ≡ true =
      subst (λ d. sha256_matches d ≡ true) digest (hex.hex text) in
    let matches : artifact_ref_matches ".eval/runs/" out.ref ≡ true =
      rw binds.8 (ref-matches ".eval/runs/" out.sha256 is_hex) in
    let slices : artifact_digest ".eval/runs/" out.ref ≡ out.sha256 =
      rw binds.8 (slice-digest ".eval/runs/" out.sha256 is_hex) in
    let parses =
      parse_evaluation_run_of_fits out.run (evaluate_execution-fits p input out returned) in
    let rebuilds = evaluate_execution-rebuild_run p input out returned in
    rw
      (
        matches,
        kept,
        parses,
        binds.7,
        slices,
        eq_refl out.sha256,
        readable,
        rebuilds,
        written,
        eq_refl text,
      )
      refl
