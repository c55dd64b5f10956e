-- ===== src/Evaluator/Engine/Laws/Verdict.antt =====
-- The Run that `evaluateExecution` of packages/weave/src/evaluator/engine.ts returns.
use domain_eval_weave.Base.{
  ◌≡◌, ◌≢◌, ◌↔◌, ◌⊎◌, ◌∙◌, refl, sym, ap, subst, arith, String, true, not, none, List, [], ◌∷◌, map,
  is_empty, All, ◌==◌, eq_iff, template, take,
}
use domain_eval_weave.Base.Result.{Result, ok, require, require_iff, >>=-eq-ok, ok-inj}
use domain_eval_weave.Json.Build.{object}
use domain_eval_weave.Platform.{Platform, canonical_json_digest}
use domain_eval_weave.Capsule.Contracts.{
  RequirementDelta, RequirementEdge, EvaluatorPackage, Diagnostic, ClaimResult, pass, inconclusive,
  measurement_error, accept, undecided, EvaluationRun,
}
use domain_eval_weave.Capsule.Lookup.{find_requirement, find_evaluator}
use domain_eval_weave.Capsule.Schema.Parse.{parse_evaluation_run, parse_evaluation_run-ok}
use domain_eval_weave.Capsule.Schema.Runs.{evaluation_run_schema}
use domain_eval_weave.Evaluator.Observation.{CandidateExecution, parse_document}
use domain_eval_weave.Evaluator.Rebuild.{rebuild_run, rebuilt}
use domain_eval_weave.Evaluator.Rebuild.Laws.{
  rebuild_run-rebuilt, rebuild_run-accept_iff, rebuild_run-rebuild_run, rebuild_run-undecided,
}
use domain_eval_weave.Evaluator.Encode.{run_body, run_json}
use domain_eval_weave.Evaluator.Engine.Claims.{judge_edges, required_edges}
use domain_eval_weave.Evaluator.Engine.Run.{
  PersistedEvaluationRun, ExecutionInput, execution_diagnostics, document_of, all_diagnostics,
  run_ref, provisional_run, seal_run, evaluate_execution,
}
use domain_eval_weave.Evaluator.Engine.Laws.Judgement.{
  Demonstrated, judge_edges-claim_ids, judge_edges-pass_iff, judge_edges-ne-nil,
  judge_edges-IsUnjudged,
}

All-statuses :
    (cs : List ClaimResult)
    → All (λ s. s ≡ pass) (map (λ c. ClaimResult.status c) cs)
      ↔ All (λ c. ClaimResult.status c ≡ pass) cs
All-statuses [] = ((λ h. tt), (λ h. tt))
All-statuses (c ∷ cs) = let ih = All-statuses cs in ((λ h. (h.0, ih.0 h.1)), (λ h. (h.0, ih.1 h.1)))

unjudged-statuses :
    (cs : List ClaimResult)
    → All (λ c. (ClaimResult.status c ≡ inconclusive) ⊎ (c.status ≡ measurement_error)) cs
    → All (λ s. (s ≡ inconclusive) ⊎ (s ≡ measurement_error)) (map (λ c. ClaimResult.status c) cs)
unjudged-statuses [] h = tt
unjudged-statuses (c ∷ cs) h = (h.0, unjudged-statuses cs h.1)

statuses-ne-nil : (cs : List ClaimResult) → (map (λ c. ClaimResult.status c) cs ≢ []) ↔ (cs ≢ [])
statuses-ne-nil [] = ((λ h. absurd (h refl)), (λ h. absurd (h refl)))
statuses-ne-nil (c ∷ cs) = ((λ h. λ e. cc), (λ h. λ e. cc))

-- A sealed Run is the provisional one with an id, and its validity and verdict rebuilt.
record Seals (p : Platform) (provisional : EvaluationRun) (out : PersistedEvaluationRun)
    : Type 0 where
  id : String
  fits : evaluation_run_schema provisional ≡ true
  rebuilds : rebuild_run (record provisional { run_id = id }) ≡ ok out.run
  digests : canonical_json_digest p (run_json out.run) ≡ ok out.sha256
  at : out.ref ≡ run_ref out.sha256

seal_run-Seals :
    (p : Platform) (provisional : EvaluationRun) (out : PersistedEvaluationRun)
    → seal_run p provisional ≡ ok out
    → Seals p provisional out
unfolding seal_run
seal_run-Seals p provisional out h =
    let (parsed, parses, h₁) = >>=-eq-ok (parse_evaluation_run provisional) _ h in
    let (digest, _, h₂) = >>=-eq-ok (canonical_json_digest p (object (run_body parsed))) _ h₁ in
    let id = template ("run-" ∷ take 24 digest ∷ []) in
    let (run, rebuilds, h₃) = >>=-eq-ok (rebuild_run (record parsed { run_id = id })) _ h₂ in
    let (sha256, digests, h₄) = >>=-eq-ok (canonical_json_digest p (run_json run)) _ h₃ in
    let (fits, same) = parse_evaluation_run-ok provisional parsed parses in
    let e = ok-inj _ _ h₄ in
    record {
      id = id;
      fits = fits;
      rebuilds =
          ap (λ (r : EvaluationRun). rebuild_run (record r { run_id = id })) (sym same)
          ∙ (rebuilds ∙ ap (λ t. ok (PersistedEvaluationRun.run t)) e);
      digests =
          ap (λ t. canonical_json_digest p (run_json (PersistedEvaluationRun.run t))) (sym e)
          ∙ (digests ∙ ap (λ t. ok (PersistedEvaluationRun.sha256 t)) e);
      at =
          ap (λ t. PersistedEvaluationRun.ref t) (sym e)
          ∙ ap (λ t. run_ref (PersistedEvaluationRun.sha256 t)) e;
    }

diagnosed :
    (p : Platform) (execution : CandidateExecution) (initial : List Diagnostic)
    → (initial ≢ [])
      ⊎ (execution.timed_out ≡ true)
      ⊎ (execution.output_limit_exceeded ≡ true)
      ⊎ (parse_document p execution ≡ none)
    → not (is_empty (all_diagnostics p execution (execution_diagnostics execution initial))) ≡ true
unfolding all_diagnostics execution_diagnostics
diagnosed p execution [] bad = ground arith
diagnosed p execution (d ∷ ds) bad = ground arith

module _ (p : Platform) (input : ExecutionInput) where
  abbrev pub early_diagnostics : List Diagnostic
  early_diagnostics = execution_diagnostics input.execution input.initial_diagnostics

  abbrev pub final_diagnostics : List Diagnostic
  final_diagnostics = all_diagnostics p input.execution early_diagnostics

  abbrev pub judged_edges : RequirementDelta → EvaluatorPackage → Result (List ClaimResult)
  judged_edges requirement evaluator =
      judge_edges input.capsule input.evaluator_ref evaluator.checks input.execution
        (document_of p input.execution early_diagnostics) (not (is_empty final_diagnostics))
        requirement.edges

  -- The required edge is demonstrated by the execution, under the checks of the Evaluator.
  abbrev pub IsDemonstrated : EvaluatorPackage → RequirementEdge → Type 0
  IsDemonstrated evaluator =
      Demonstrated input.capsule input.evaluator_ref evaluator.checks input.execution
        (document_of p input.execution early_diagnostics) (not (is_empty final_diagnostics))

  -- What the code has found and computed where it returns.
  pub record Evaluates (out : PersistedEvaluationRun) : Type 0 where
    pub requirement : RequirementDelta
    pub evaluator : EvaluatorPackage
    pub found_requirement : find_requirement input.capsule input.requirement_id ≡ ok requirement
    pub found_evaluator : find_evaluator input.capsule input.evaluator_ref ≡ ok evaluator
    pub fits : evaluator.requirement_id ≡ requirement.requirement_id
    pub results : List ClaimResult
    pub judged : judged_edges requirement evaluator ≡ ok results
    pub seals :
        seal_run p (provisional_run p input requirement evaluator results final_diagnostics)
        ≡ ok out

  module _ (out : PersistedEvaluationRun) (returned : evaluate_execution p input ≡ ok out) where
    pub evaluate_execution-Evaluates : Evaluates out
    unfolding evaluate_execution
    evaluate_execution-Evaluates =
        let (requirement, found_r, h₁) =
          >>=-eq-ok (find_requirement input.capsule input.requirement_id) _ returned in
        let (evaluator, found_e, h₂) =
          >>=-eq-ok (find_evaluator input.capsule input.evaluator_ref) _ h₁ in
        let (_, fits, h₃) =
          >>=-eq-ok (require (evaluator.requirement_id == requirement.requirement_id) _) _ h₂ in
        let (results, judged, seals) = >>=-eq-ok (judged_edges requirement evaluator) _ h₃ in
        record {
          requirement = requirement;
          evaluator = evaluator;
          found_requirement = found_r;
          found_evaluator = found_e;
          fits = (eq_iff _ _).0 ((require_iff _ _).0 fits);
          results = results;
          judged = judged;
          seals = seals;
        }

    pub evaluate_execution-fits : evaluation_run_schema out.run ≡ true
    unfolding rebuild_run
    evaluate_execution-fits =
        let s = seal_run-Seals p _ out evaluate_execution-Evaluates.seals in
        let (fits, same) = parse_evaluation_run-ok _ out.run s.rebuilds in rw same fits

    pub run-claims : (v : Evaluates out) → out.run.claims ≡ v.results
    unfolding rebuilt provisional_run
    run-claims v =
        let s = seal_run-Seals p _ out v.seals in
        ap (λ r. EvaluationRun.claims r) (rebuild_run-rebuilt _ out.run s.rebuilds)

    -- The results of a Run are about the Claims of its Requirement's required edges, one for each
    -- and in their order, the Run names its Release, Candidate, Requirement and Evaluator, and its
    -- reference carries its digest.
    pub evaluate_execution-binds :
        (requirement : RequirementDelta) (evaluator : EvaluatorPackage)
        → find_requirement input.capsule input.requirement_id ≡ ok requirement
        → find_evaluator input.capsule input.evaluator_ref ≡ ok evaluator
        → (map (λ r. ClaimResult.claim_id r) out.run.claims
            ≡ map (λ e. RequirementEdge.claim_id e) (required_edges requirement.edges))
          × (out.run.capsule_release_sha256 ≡ input.release_sha256)
          × (out.run.candidate_id ≡ input.candidate_id)
          × (out.run.candidate_sha256 ≡ input.candidate_sha256)
          × (out.run.requirement_id ≡ requirement.requirement_id)
          × (out.run.evaluator.evaluator_id ≡ evaluator.evaluator_id)
          × (out.run.evaluator.version ≡ evaluator.version)
          × (canonical_json_digest p (run_json out.run) ≡ ok out.sha256)
          × (out.ref ≡ run_ref out.sha256)
    unfolding rebuilt provisional_run
    evaluate_execution-binds requirement evaluator found_r found_e =
        let v = evaluate_execution-Evaluates in
        let s = seal_run-Seals p _ out v.seals in
        let e = rebuild_run-rebuilt _ out.run s.rebuilds in
        let same_r : v.requirement ≡ requirement = ok-inj _ _ (sym v.found_requirement ∙ found_r) in
        let same_e : v.evaluator ≡ evaluator = ok-inj _ _ (sym v.found_evaluator ∙ found_e) in
        (
          ap (λ cs. map (λ r. ClaimResult.claim_id r) cs) (run-claims v)
              ∙ (judge_edges-claim_ids _ _ _ _ _ _ v.requirement.edges v.results v.judged
                  ∙ ap
                      (λ (r : RequirementDelta).
                        map (λ e. RequirementEdge.claim_id e) (required_edges r.edges))
                      same_r),
          ap (λ r. EvaluationRun.capsule_release_sha256 r) e,
          ap (λ r. EvaluationRun.candidate_id r) e,
          ap (λ r. EvaluationRun.candidate_sha256 r) e,
          ap (λ r. EvaluationRun.requirement_id r) e
              ∙ ap (λ r. RequirementDelta.requirement_id r) same_r,
          ap (λ (r : EvaluationRun). r.evaluator.evaluator_id) e
              ∙ ap (λ r. EvaluatorPackage.evaluator_id r) same_e,
          ap (λ (r : EvaluationRun). r.evaluator.version) e
              ∙ ap (λ r. EvaluatorPackage.version r) same_e,
          s.digests,
          s.at,
        )

    -- A Run is accepted exactly when its Requirement has a required edge and every required edge is
    -- demonstrated: its Claim is confirmed, the Evaluator has a check for it, the execution went
    -- without a diagnostic, and every check for the Claim passes on the document.
    pub evaluate_execution-accept_iff :
        (requirement : RequirementDelta) (evaluator : EvaluatorPackage)
        → find_requirement input.capsule input.requirement_id ≡ ok requirement
        → find_evaluator input.capsule input.evaluator_ref ≡ ok evaluator
        → (out.run.verdict ≡ accept) ↔ (
            (required_edges requirement.edges ≢ [])
            × All (IsDemonstrated evaluator) (required_edges requirement.edges))
    unfolding provisional_run
    evaluate_execution-accept_iff requirement evaluator found_r found_e =
        let v = evaluate_execution-Evaluates in
        let s = seal_run-Seals p _ out v.seals in
        let accepted = rebuild_run-accept_iff _ out.run s.rebuilds in
        let same_r : v.requirement ≡ requirement = ok-inj _ _ (sym v.found_requirement ∙ found_r) in
        let same_e : v.evaluator ≡ evaluator = ok-inj _ _ (sym v.found_evaluator ∙ found_e) in
        let judged : judged_edges requirement evaluator ≡ ok v.results =
          subst (λ e. judged_edges requirement e ≡ ok v.results) same_e
            (subst (λ r. judged_edges r v.evaluator ≡ ok v.results) same_r v.judged) in
        let passes = judge_edges-pass_iff _ _ _ _ _ _ requirement.edges v.results judged in
        let some_edge = judge_edges-ne-nil _ _ _ _ _ _ requirement.edges v.results judged in
        (
          (λ e.
              let (n, all) = accepted.0 e in
              (
                some_edge.0 ((statuses-ne-nil v.results).0 n),
                passes.0 ((All-statuses v.results).0 all),
              )),
          (λ (n, all). accepted.1 (
            (statuses-ne-nil v.results).1 (some_edge.1 n),
            (All-statuses v.results).1 (passes.1 all),
          )),
        )

    -- What `evaluateExecution` returns is rebuilt: rebuilding it once more changes nothing.
    pub evaluate_execution-rebuild_run : rebuild_run out.run ≡ ok out.run
    evaluate_execution-rebuild_run =
        let s = seal_run-Seals p _ out evaluate_execution-Evaluates.seals in
        rebuild_run-rebuild_run _ out.run s.rebuilds

    -- A Candidate whose runner threw, that timed out, that wrote too much, or whose output is not one
    -- JSON document, is neither accepted nor rejected.
    pub evaluate_execution-undecided :
        (input.initial_diagnostics ≢ [])
          ⊎ (input.execution.timed_out ≡ true)
          ⊎ (input.execution.output_limit_exceeded ≡ true)
          ⊎ (parse_document p input.execution ≡ none)
        → out.run.verdict ≡ undecided
    unfolding provisional_run
    evaluate_execution-undecided bad =
        let v = evaluate_execution-Evaluates in
        let s = seal_run-Seals p _ out v.seals in
        rebuild_run-undecided _ out.run s.rebuilds (
          unjudged-statuses v.results (
            judge_edges-IsUnjudged _ _ _ _ _ _ v.requirement.edges v.results v.judged
              (diagnosed p input.execution input.initial_diagnostics bad)))
