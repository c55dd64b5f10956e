-- ===== src/Evaluator/Calibration/Compare/Laws.antt =====
-- What a comparison of two Evaluators lists (packages/weave/src/evaluator/calibration.ts).
use domain_eval_weave.Base.{◌≡◌, ◌≢◌, ◌↔◌, String, none, List, [], ◌∷◌, Any}
use domain_eval_weave.Base.Result.{Result, ◌>>=◌, ok}
use domain_eval_weave.Platform.{Platform}
use domain_eval_weave.Capsule.Contracts.{CapsuleCandidate, CalibrationCase, LoadedCapsule}
use domain_eval_weave.Evaluator.Engine.Run.{PersistedEvaluationRun}
use domain_eval_weave.Evaluator.Engine.Candidate.{
  ReleasedCapsule, BoundCandidate, evaluate_candidate,
}
use domain_eval_weave.Evaluator.Calibration.Compare.{
  ClaimChange, ChangedCase, StatefulRunner, claim_changes, run_bound,
}
use domain_eval_weave.Evaluator.Calibration.Compare.Changes.{Differs}

module _ {W : Type 0} (p : Platform) (capsule : LoadedCapsule) (released : ReleasedCapsule)
    (requirement_id left_ref right_ref : String) (delegate : StatefulRunner W) where
  -- Both Evaluators have judged one answer that the runner gave for the case's Candidate.
  pub record IsJudged (c : CalibrationCase) : Type 0 where
    pub candidate : CapsuleCandidate
    pub state : W
    pub left : PersistedEvaluationRun
    pub right : PersistedEvaluationRun
    pub left_judged :
        evaluate_candidate p capsule released left_ref requirement_id c.candidate_id
          (λ _. (delegate candidate state).0)
        ≡ ok left
    pub right_judged :
        evaluate_candidate p capsule released right_ref requirement_id c.candidate_id
          (λ _. (delegate candidate state).0)
        ≡ ok right

  -- The Runs of a case differ in the change.
  abbrev pub DiffersIn : {c : CalibrationCase} → IsJudged c → ClaimChange → Type 0
  DiffersIn judged change = Differs judged.left.run judged.right.run change

  -- In their order, the cases whose Runs differ, each with the changes in which they do.
  pub data IsCompared : List CalibrationCase → List ChangedCase → Type 0 where
    no_case : IsCompared [] []
    quiet :
        {c : CalibrationCase} {cs : List CalibrationCase} {ds : List ChangedCase}
        (judged : IsJudged c)
        → ((change : ClaimChange) → ¬ DiffersIn judged change)
        → IsCompared cs ds
        → IsCompared (c ∷ cs) ds
    changed :
        {c : CalibrationCase} {cs : List CalibrationCase} {d : ChangedCase} {ds : List ChangedCase}
        (judged : IsJudged c)
        → d.case_id ≡ c.case_id
        → d.claim_changes ≢ []
        → ((change : ClaimChange) → Any (λ q. q ≡ change) d.claim_changes ↔ DiffersIn judged change)
        → IsCompared cs ds
        → IsCompared (c ∷ cs) (d ∷ ds)

  -- The comparison at one case, on what the binding of its Candidate gives.
  compared_at : Result BoundCandidate → W → Result (List ClaimChange × W)
  compared_at bound w =
      let (left_run, shared) =
        run_bound p capsule released requirement_id left_ref right_ref delegate left_ref bound
          (none, w) in
      let (right_run, last) =
        run_bound p capsule released requirement_id left_ref right_ref delegate right_ref bound
          shared in
      left_run >>= λ left. right_run >>= λ right. ok (claim_changes left.run right.run, last.1)
