-- ===== src/Harness.antt =====
-- packages/weave/src/harness/projection.ts: what two Runs, one without and one with an
-- intervention, show of its effect.
pub mod Laws
use domain_eval_weave.Base.{
  ℕ, ℤ, String, Bool, true, false, ◌&&◌, ◌||◌, not, Option, none, some, List, map, filter, any, ltb,
  ◌==◌, if◌then◌else◌, sort,
}
use domain_eval_weave.Base.Result.{Failure, plain_error, Result, ok, require, ◌>>◌}
use domain_eval_weave.Capsule.Contracts.{
  ClaimResult, ResultStatus, pass, fail, inconclusive, measurement_error, MeasurementValidity,
  valid, Verdict, EvaluatorId, EvaluationRun,
}
use domain_eval_weave.Evaluator.Calibration.Report.{status_at, status_is}

pub data Effect : Type 0 where
  improvement_observed harm_observed mixed no_observed_difference effect_not_activated : Effect
  effect_inconclusive : Effect

pub data Activation : Type 0 where
  activated not_activated unknown : Activation

pub record Intervention : Type 0 where
  pub intervention_id : String
  pub control : String
  pub treatment : String

pub record CostDelta : Type 0 where
  pub elapsed_ms : Option ℤ
  pub input_tokens : Option ℤ
  pub output_tokens : Option ℤ

pub record Arm : Type 0 where
  pub run_id : String
  pub candidate_id : String
  pub candidate_sha256 : String
  pub measurement_validity : MeasurementValidity
  pub verdict : Verdict

pub record HarnessInput : Type 0 where
  pub experiment_id : String
  pub control : EvaluationRun
  pub treatment : EvaluationRun
  pub intervention : Intervention
  pub activation : Activation
  pub mechanism_validity : MeasurementValidity
  pub cost_delta : CostDelta

pub record HarnessExperimentReport : Type 0 where
  pub experiment_id : String
  pub capsule_release_sha256 : String
  pub evaluator : EvaluatorId
  pub requirement_id : String
  pub intervention : Intervention
  pub control : Arm
  pub treatment : Arm
  pub activation : Activation
  pub mechanism_validity : MeasurementValidity
  pub effect : Effect
  pub changed_claims : List String
  pub cost_delta : CostDelta

-- `STATUS_RANK`
unfoldable pub status_rank : ResultStatus → ℕ
status_rank fail = 0
status_rank measurement_error = 1
status_rank inconclusive = 1
status_rank pass = 2

abbrev pub rank_improves : ResultStatus → Option ResultStatus → Bool
rank_improves before none = false
rank_improves before (some after) = ltb (status_rank before) (status_rank after)

-- A Claim that the treatment does not judge counts as harmed.
abbrev pub rank_harms : ResultStatus → Option ResultStatus → Bool
rank_harms before none = true
rank_harms before (some after) = ltb (status_rank after) (status_rank before)

-- The variables `improved` and `harmed` after the loop over the control's Claims.
unfoldable pub improved : EvaluationRun → EvaluationRun → Bool
unfolding status_rank
improved control treatment =
    any (λ c. rank_improves (ClaimResult.status c) (status_at treatment c.claim_id)) control.claims

unfoldable pub harmed : EvaluationRun → EvaluationRun → Bool
unfolding status_rank
harmed control treatment =
    any (λ c. rank_harms (ClaimResult.status c) (status_at treatment c.claim_id)) control.claims

unfoldable pub changed_claims : EvaluationRun → EvaluationRun → List String
changed_claims control treatment = sort (
    map (λ c. ClaimResult.claim_id c)
      (filter (λ c. not (status_is (status_at treatment (ClaimResult.claim_id c)) c.status))
        control.claims))

abbrev is_valid : MeasurementValidity → Bool
is_valid valid = true
is_valid _ = false

abbrev is_known : Activation → Bool
is_known unknown = false
is_known _ = true

abbrev is_activated : Activation → Bool
is_activated not_activated = false
is_activated _ = true

abbrev pub observed_effect : Bool → Bool → Effect
observed_effect true true = mixed
observed_effect true false = improvement_observed
observed_effect false true = harm_observed
observed_effect false false = no_observed_difference

unfoldable pub effect_of : HarnessInput → Effect
effect_of input =
    if not (is_valid input.mechanism_validity)
      || not (is_valid input.control.measurement_validity)
      || not (is_valid input.treatment.measurement_validity)
      || not (is_known input.activation)
    then effect_inconclusive
    else if not (is_activated input.activation)
    then effect_not_activated
    else observed_effect (improved input.control input.treatment)
        (harmed input.control input.treatment)

abbrev pub arm_of : EvaluationRun → Arm
arm_of run = record {
  run_id = run.run_id;
  candidate_id = run.candidate_id;
  candidate_sha256 = run.candidate_sha256;
  measurement_validity = run.measurement_validity;
  verdict = run.verdict;
}

-- Both Runs are of one Release, Requirement and Evaluator.
abbrev pub shares_subject : EvaluationRun → EvaluationRun → Bool
shares_subject control treatment =
    control.capsule_release_sha256 == treatment.capsule_release_sha256
    && control.requirement_id == treatment.requirement_id
    && control.evaluator.evaluator_id == treatment.evaluator.evaluator_id
    && control.evaluator.version == treatment.evaluator.version

abbrev pub not_shared : Failure
not_shared = plain_error "Harness arms must share one exact Capsule, Requirement and Evaluator"

abbrev pub not_distinct : Failure
not_distinct = plain_error "Harness arms must bind distinct frozen Candidates"

unfoldable pub build_harness_experiment_report : HarnessInput → Result HarnessExperimentReport
unfolding effect_of
build_harness_experiment_report input = do
  let control = input.control
  let treatment = input.treatment
  require (shares_subject control treatment) not_shared
  require (not (control.candidate_id == treatment.candidate_id)) not_distinct
  ok (record {
    experiment_id = input.experiment_id;
    capsule_release_sha256 = control.capsule_release_sha256;
    evaluator = control.evaluator;
    requirement_id = control.requirement_id;
    intervention = input.intervention;
    control = arm_of control;
    treatment = arm_of treatment;
    activation = input.activation;
    mechanism_validity = input.mechanism_validity;
    effect = effect_of input;
    changed_claims = changed_claims control treatment;
    cost_delta = input.cost_delta;
  })
