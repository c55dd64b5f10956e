-- ===== src/Evaluator/Check/Count.antt =====
-- The entries that a `json_array_count_equals` check of
-- packages/weave/src/evaluator/engine.ts counts.
use domain_eval_weave.Base.{
  ◌≡◌, ◌↔◌, ◌∙◌, refl, sym, ap, arith, ℕ, suc, String, Bool, true, false, some, List, [], ◌∷◌, All,
  Option-cases, Bool-cases, inl, inr, some-inj, subst,
}
use domain_eval_weave.Base.Result.{ok, >>=-eq-ok, ok-inj}
use domain_eval_weave.Json.{JsonValue, arr, Items, nil, cons, canonical_json}
use domain_eval_weave.Capsule.Contracts.{Segment, json_array_count_equals, EvaluatorCheck}
use domain_eval_weave.Evaluator.Observation.{CandidateExecution, property, select}
use domain_eval_weave.Evaluator.Check.{
  CheckStatus, CheckResult, canonical_equal, is_record, matches_where, matches_entry,
  count_matching, compare_count, check_array, at_path, evaluate_kind, evaluate_check,
}
use domain_eval_weave.Evaluator.Check.Laws.{
  at_path-found, at_path-missing, canonical_equal-true_iff,
}

-- The entry has a value under the key, with the canonical text of the expected one.
abbrev Shows : JsonValue → String × JsonValue → Type 0
Shows entry condition =
    (value : JsonValue) × (text : String) × (property entry condition.0 ≡ some value)
    × (canonical_json value ≡ ok text)
    × (canonical_json condition.1 ≡ ok text)

-- An object that shows every condition.
abbrev pub Matches : List (String × JsonValue) → JsonValue → Type 0
Matches conditions entry = (is_record entry ≡ true) × All (Shows entry) conditions

-- So many of the entries are matches.
pub data Matching (conditions : List (String × JsonValue)) : Items → ℕ → Type 0 where
  no_entry : Matching conditions nil 0
  hit :
      {entry : JsonValue} {rest : Items} {n : ℕ}
      → Matches conditions entry
      → Matching conditions rest n
      → Matching conditions (cons entry rest) (suc n)
  miss :
      {entry : JsonValue} {rest : Items} {n : ℕ}
      → ¬ Matches conditions entry
      → Matching conditions rest n
      → Matching conditions (cons entry rest) n

items_in : JsonValue → Items
items_in (arr items) = items
items_in _ = nil

arr-inj : {a b : Items} → arr a ≡ arr b → a ≡ b
unfolding items_in
arr-inj e = ap items_in e

module _ (execution : CandidateExecution) (conditions : List (String × JsonValue)) where
  matches_where_iff :
      (entry : JsonValue) (listed : List (String × JsonValue)) (b : Bool)
      → matches_where entry listed ≡ ok b
      → (b ≡ true) ↔ All (Shows entry) listed
  unfolding matches_where
  matches_where_iff entry [] b h = ((λ e. tt), (λ a. sym (ok-inj _ _ h)))
  matches_where_iff entry ((k, expected) ∷ rest) b h = elim (Option-cases (property entry k)) [
    | inl e ↦
        let no : false ≡ b = ok-inj _ _ (rw (matches_where, e) at h) in
        ((λ t. cc), (λ ((v, text, found, _, _), _). cc (sym e ∙ found)))
    | inr (value, e) ↦
        let (same, equal, h₁) =
          >>=-eq-ok (canonical_equal value expected) _ (rw (matches_where, e) at h) in
        let parts = canonical_equal-true_iff execution value expected same equal in
        elim (Bool-cases same) [
          | inl t ↦
              let later = matches_where_iff entry rest b (rw t at h₁) in
              let (text, l, q) = parts.0 t in
              ((λ u. ((value, text, e, l, q), later.0 u)), (λ (_, a). later.1 a))
          | inr f ↦
              let no : false ≡ b = ok-inj _ _ (rw f at h₁) in
              (
                (λ u. cc),
                (λ ((v, text, found, l, q), _).
                    let t =
                      parts.1 (text, ap canonical_json (some-inj _ _ (sym e ∙ found)) ∙ l, q) in
                    cc (sym f ∙ t)),
              )
        ]
  ]

  matches_entry_iff :
      (entry : JsonValue) (b : Bool)
      → matches_entry entry conditions ≡ ok b
      → (b ≡ true) ↔ Matches conditions entry
  unfolding matches_entry
  matches_entry_iff entry b h = elim (Bool-cases (is_record entry)) [
    | inl e ↦
        let parts = matches_where_iff entry conditions b (rw (matches_entry, e) at h) in
        ((λ t. (e, parts.0 t)), (λ (_, a). parts.1 a))
    | inr e ↦
        let no : false ≡ b = ok-inj _ _ (rw (matches_entry, e) at h) in
        ((λ t. cc), (λ (t, _). cc (sym e ∙ t)))
  ]

  count_matching-Matching :
      (items : Items) (n : ℕ) → count_matching items conditions ≡ ok n → Matching conditions items n
  unfolding count_matching
  count_matching-Matching nil n h = subst (Matching conditions nil) (ok-inj _ _ h) no_entry
  count_matching-Matching (cons entry rest) n h =
      let (here, tested, h₁) = >>=-eq-ok (matches_entry entry conditions) _ h in
      let (later, counted, h₂) = >>=-eq-ok (count_matching rest conditions) _ h₁ in
      let parts = matches_entry_iff entry here tested in
      let ih = count_matching-Matching rest later counted in
      elim (Bool-cases here) [
        | inl t ↦
            subst (Matching conditions (cons entry rest)) (ok-inj _ _ (rw t at h₂))
              (hit (parts.0 t) ih)
        | inr f ↦
            subst (Matching conditions (cons entry rest)) (ok-inj _ _ (rw f at h₂))
              (miss (λ m. cc (sym f ∙ parts.1 m)) ih)
      ]

  Matching-unique :
      {items : Items} {m n : ℕ} → Matching conditions items m → Matching conditions items n → m ≡ n
  Matching-unique no_entry no_entry = refl
  Matching-unique (hit _ a) (hit _ b) = ap suc (Matching-unique a b)
  Matching-unique (hit e _) (miss ne _) = absurd (ne e)
  Matching-unique (miss ne _) (hit e _) = absurd (ne e)
  Matching-unique (miss _ a) (miss _ b) = Matching-unique a b

  compare_count-pass_iff :
      (count expected : ℕ)
      → ((compare_count count expected).status ≡ CheckStatus.pass) ↔ (count ≡ expected)
  unfolding compare_count
  compare_count-pass_iff count expected = ground arith

  check_array-pass_iff :
      (path : List Segment) (expected_count : ℕ) (value : JsonValue) (r : CheckResult)
      → check_array path conditions expected_count value ≡ ok r
      → (r.status ≡ CheckStatus.pass)
        ↔ ((items : Items) × (value ≡ arr items) × Matching conditions items expected_count)
  unfolding check_array
  check_array-pass_iff path expected_count (arr items) r h =
      let (count, counted, h₁) = >>=-eq-ok (count_matching items conditions) _ h in
      let same = ok-inj _ _ h₁ in
      let parts = compare_count-pass_iff count expected_count in
      let counts = count_matching-Matching items count counted in
      (
        (λ e.
            let n = parts.0 (ap (λ q. CheckResult.status q) same ∙ e) in
            (items, refl, subst (Matching conditions items) n counts)),
        (λ (found, at, m).
            let there = subst (λ q. Matching conditions q expected_count) (sym (arr-inj at)) m in
            ap (λ q. CheckResult.status q) (sym same) ∙ parts.1 (Matching-unique counts there)),
      )
  check_array-pass_iff path expected_count value r h =
      let failed = ap (λ q. CheckResult.status q) (ok-inj _ _ h) in
      ((λ e. cc (failed ∙ e)), (λ (items, at, _). cc at))

  -- A `json_array_count_equals` check that returns passes exactly when the path selects an array in
  -- which as many entries as expected are objects that have, under each key of `where`, a value
  -- with the canonical text of the one given there.
  pub json_array_count_equals-pass_iff :
      (k : EvaluatorCheck) (path : List Segment) (expected_count : ℕ) (document : JsonValue)
      → k.kind ≡ json_array_count_equals path conditions expected_count
      → (r : CheckResult) → evaluate_check k execution (some document) ≡ ok r
      → (r.status ≡ CheckStatus.pass) ↔ (
          (items : Items) × (select document path ≡ some (arr items))
          × Matching conditions items expected_count)
  unfolding evaluate_check evaluate_kind
  json_array_count_equals-pass_iff k path expected_count document kind r h =
      let check = check_array path conditions expected_count in
      let checked : at_path path (some document) check ≡ ok r =
        sym (ap (λ q. evaluate_kind q execution (some document)) kind) ∙ h in
      elim (Option-cases (select document path)) [
        | inl e ↦
            let failed = at_path-missing execution path document check r e checked in
            ((λ p. cc (sym failed ∙ p)), (λ (items, found, _). cc (sym e ∙ found)))
        | inr (value, e) ↦
            let parts =
              check_array-pass_iff path expected_count value r
                (sym (at_path-found execution path document value check e) ∙ checked) in
            (
              (λ p. let (items, at, m) = parts.0 p in (items, e ∙ ap some at, m)),
              (λ (items, found, m). parts.1 (items, some-inj _ _ (sym e ∙ found), m)),
            )
      ]
