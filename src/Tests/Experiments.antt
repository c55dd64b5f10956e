-- ===== src/Tests/Experiments.antt =====
-- A Harness experiment on two Runs of one Evaluator.
use domain_eval_weave.Base.{
  ◌≡◌, refl, ◌↔◌, true, false, none, some, [], ◌∷◌, All, is_empty, pos, sort, sort_by, text_leb,
}
use domain_eval_weave.Base.Result.{ok}
use domain_eval_weave.Capsule.Contracts.{requirement_delta, pass, valid, accept, EvaluationRun}
use domain_eval_weave.Evaluator.Calibration.Report.{status_at}
use domain_eval_weave.Harness.{
  HarnessInput, HarnessExperimentReport, build_harness_experiment_report, no_observed_difference,
  activated, changed_claims,
}
use domain_eval_weave.Harness.Laws.{
  build_harness_experiment_report-none_iff, build_harness_experiment_report-unchanged, IsMeasured,
  HasSameRank,
}
use domain_eval_weave.Tests.{digest, is_ok, the_value, the_value-ok}

abbrev control : EvaluationRun
control = record {
  run_id = "run-1";
  capsule_release_sha256 = digest;
  requirement_id = "checkout";
  evaluator = record { evaluator_id = "judge"; version = "1.0.0" };
  candidate_id = "plain";
  candidate_sha256 = digest;
  measurement_validity = valid;
  verdict = accept;
  claims =
      record {
        claim_id = "total";
        axis = requirement_delta;
        status = pass;
        check_ids = "total-is-three" ∷ [];
        diagnostics = [];
      }
      ∷ [];
  execution = record {
    exit_code = some (pos 0);
    signal = none;
    stdout_sha256 = digest;
    stderr_sha256 = digest;
    timed_out = false;
    output_limit_exceeded = false;
  };
  diagnostics = [];
}

abbrev experiment : HarnessInput
experiment = record {
  experiment_id = "e1";
  control = control;
  treatment = record control { run_id = "run-2"; candidate_id = "guided" };
  intervention = record { intervention_id = "i1"; control = "none"; treatment = "guide" };
  activation = activated;
  mechanism_validity = valid;
  cost_delta = record { elapsed_ms = none; input_tokens = none; output_tokens = none };
}

built_is_ok : is_ok (build_harness_experiment_report experiment) ≡ true
unfolding build_harness_experiment_report
built_is_ok = refl

abbrev report : HarnessExperimentReport
report = the_value (build_harness_experiment_report experiment) built_is_ok

built : build_harness_experiment_report experiment ≡ ok report
built = the_value-ok _ built_is_ok

unchanged : is_empty report.changed_claims ≡ true
unfolding build_harness_experiment_report changed_claims sort sort_by text_leb status_at
unchanged = refl

build_harness_experiment_report-none_iff_example :
    (report.effect ≡ no_observed_difference)
    ↔ (IsMeasured experiment × All (HasSameRank experiment.treatment) experiment.control.claims)
build_harness_experiment_report-none_iff_example =
    build_harness_experiment_report-none_iff experiment report built

build_harness_experiment_report-unchanged_example : report.effect ≡ no_observed_difference
build_harness_experiment_report-unchanged_example =
    build_harness_experiment_report-unchanged experiment report built (refl, refl, refl, refl)
      unchanged
