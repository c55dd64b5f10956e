-- ===== src/Evaluator/Check/Laws.antt =====
-- What `evaluateCheck` of packages/weave/src/evaluator/engine.ts answers.
use domain_eval_weave.Base.{
  ◌≡◌, ◌↔◌, inl, inr, ◌∙◌, refl, sym, ap, arith, String, Bool, true, none, some, List, Option-cases,
  some-inj, eq_iff,
}
use domain_eval_weave.Base.Result.{Result, ok, >>=-eq-ok, ok-inj}
use domain_eval_weave.Json.{JsonValue, canonical_json}
use domain_eval_weave.Capsule.Contracts.{Segment, json_path_equals, EvaluatorCheck}
use domain_eval_weave.Evaluator.Observation.{CandidateExecution, select}
use domain_eval_weave.Evaluator.Check.{
  CheckStatus, CheckResult, canonical_equal, at_path, check_equal, evaluate_kind, evaluate_check,
}

module _ (execution : CandidateExecution) where
  pub at_path-found :
      (path : List Segment) (document value : JsonValue) (check : JsonValue → Result CheckResult)
      → select document path ≡ some value
      → at_path path (some document) check ≡ check value
  unfolding at_path
  at_path-found path document value check e = rw (e, at_path) refl

  pub at_path-missing :
      (path : List Segment) (document : JsonValue) (check : JsonValue → Result CheckResult)
      (r : CheckResult)
      → select document path ≡ none
      → at_path path (some document) check ≡ ok r
      → r.status ≡ CheckStatus.fail
  unfolding at_path
  at_path-missing path document check r e h = ground arith

  pub canonical_equal-true_iff :
      (left right : JsonValue) (same : Bool)
      → canonical_equal left right ≡ ok same
      → (same ≡ true)
        ↔ ((text : String) × (canonical_json left ≡ ok text) × (canonical_json right ≡ ok text))
  unfolding canonical_equal
  canonical_equal-true_iff left right same h =
      let (a, la, h₁) = >>=-eq-ok (canonical_json left) _ h in
      let (b, rb, h₂) = >>=-eq-ok (canonical_json right) _ h₁ in
      let e = ok-inj _ _ h₂ in
      (
        (λ t. (a, la, rb ∙ ap ok (sym ((eq_iff a b).0 (e ∙ t))))),
        (λ (text, l, r).
            sym e ∙ (eq_iff a b).1 (ok-inj _ _ (sym la ∙ l) ∙ sym (ok-inj _ _ (sym rb ∙ r)))),
      )

  check_equal-pass_iff :
      (path : List Segment) (expected value : JsonValue) (r : CheckResult)
      → check_equal path expected value ≡ ok r
      → (r.status ≡ CheckStatus.pass)
        ↔ ((text : String) × (canonical_json value ≡ ok text) × (canonical_json expected ≡ ok text))
  unfolding check_equal
  check_equal-pass_iff path expected value r h =
      let (same, equal, h₁) = >>=-eq-ok (canonical_equal value expected) _ h in
      let parts = canonical_equal-true_iff value expected same equal in
      ((λ e. parts.0 (ground arith)), (λ d. let t = parts.1 d in ground arith))

  module _ (k : EvaluatorCheck) (path : List Segment) (expected document : JsonValue)
      (kind : k.kind ≡ json_path_equals path expected) where
    -- A `json_path_equals` check that returns passes exactly when the path selects a value whose
    -- canonical text is that of the expected one.
    pub json_path_equals-pass_iff :
        (r : CheckResult)
        → evaluate_check k execution (some document) ≡ ok r
        → (r.status ≡ CheckStatus.pass) ↔ (
            (value : JsonValue) × (text : String) × (select document path ≡ some value)
            × (canonical_json value ≡ ok text)
            × (canonical_json expected ≡ ok text))
    unfolding evaluate_check
    json_path_equals-pass_iff r h =
        let checked : at_path path (some document) (check_equal path expected) ≡ ok r =
          sym (ap (λ q. evaluate_kind q execution (some document)) kind) ∙ h in
        elim (Option-cases (select document path)) [
          | inl e ↦
              let failed = at_path-missing path document (check_equal path expected) r e checked in
              ((λ p. cc (sym failed ∙ p)), (λ (v, text, found, _, _). cc (sym e ∙ found)))
          | inr (value, e) ↦
              let parts =
                check_equal-pass_iff path expected value r (
                  sym (at_path-found path document value (check_equal path expected) e)
                  ∙ checked) in
              (
                (λ p. let (text, l, q) = parts.0 p in (value, text, e, l, q)),
                (λ (v, text, found, l, q).
                    parts.1 (text, ap canonical_json (some-inj _ _ (sym e ∙ found)) ∙ l, q)),
              )
        ]
