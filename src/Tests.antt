-- ===== src/Tests.antt =====
-- A small Capsule: two Claims on one source, one Requirement, one Evaluator, one Candidate and
-- three calibration cases. The theorems are applied to it in the modules below.
mod Runs
mod Documents
mod Stores
mod Comparisons
mod Loading
mod Experiments
mod Exposures
mod Domain
mod Validity
use domain_eval_weave.Base.{
  ◌≡◌, refl, ℕ, String, Bool, true, false, Option, none, some, List, [], ◌∷◌, ◌==◌, pos,
  if◌then◌else◌,
}
use domain_eval_weave.Base.Result.{Result, ok, err}
use domain_eval_weave.Json.{JsonValue, num, finite, non_finite, obj, Fields, field, end}
use domain_eval_weave.Platform.{Platform}
use domain_eval_weave.Capsule.Contracts.{
  CapsuleSource, requirement, CapsuleCandidate, CapsuleManifest, Confirmation, Claim, confirmed,
  proposed, low, high, Owner, CapsuleDomain, uses, preserves, RequirementEdge, RequirementDelta,
  key, exit_code_equals, json_path_equals, EvaluatorCheck, EvaluatorPackage, ExpectedClaim, pass,
  fail, gold, equivalent, mutant, CalibrationCase, ReleaseEntry, CapsuleRelease, LoadedCapsule,
}
use domain_eval_weave.Evaluator.Observation.{CandidateExecution}
use domain_eval_weave.Evaluator.Engine.Run.{ExecutionInput}
use domain_eval_weave.Evaluator.Engine.Candidate.{ReleasedCapsule, Runner, finished}

abbrev pub digest : String
digest = "0123456789abcdef0123456789abcdef0123456789abcdef0123456789abcdef"

abbrev pub total_three : JsonValue
total_three = obj (field "total" (num (finite "3")) end)

abbrev pub total_four : JsonValue
total_four = obj (field "total" (num (finite "4")) end)

-- `JSON.parse` reads 1e999 as an infinite number.
abbrev pub total_infinite : JsonValue
total_infinite = obj (field "total" (num non_finite) end)

-- One digest for every text, and a reader of two documents.
abbrev pub platform : Platform
platform = record {
  sha256_hex = λ s. digest;
  parse_json = λ s.
      if s == "{\"total\":3}"
      then some total_three
      else if s == "{\"total\":4}"
      then some total_four
      else if s == "{\"total\":1e999}"
      then some total_infinite
      else none;
}

abbrev pub total_claim : Claim
total_claim = record {
  claim_id = "total";
  statement = "The total is the sum of the lines";
  applicability = "every order";
  status = confirmed;
  source_ids = "prd" ∷ [];
  false_accept_risk = high;
  false_reject_risk = low;
  confirmation = some (record { owner_id = "ana"; projection_sha256 = digest });
  conflict_source_ids = none;
}

abbrev pub tax_claim : Claim
tax_claim = record {
  claim_id = "tax";
  statement = "Tax is rounded half up";
  applicability = "every order";
  status = proposed;
  source_ids = "prd" ∷ [];
  false_accept_risk = low;
  false_reject_risk = low;
  confirmation = none;
  conflict_source_ids = none;
}

abbrev pub edge : RequirementEdge
edge = record { claim_id = "total"; relation = uses; required = true }

abbrev pub delta : RequirementDelta
delta = record {
  requirement_id = "checkout";
  version = "1.0.0";
  title = "Checkout";
  source_ids = "prd" ∷ [];
  edges = edge ∷ [];
}

abbrev pub total_check : EvaluatorCheck
total_check = record {
  check_id = "total-is-three";
  claim_id = "total";
  kind = json_path_equals (key "total" ∷ []) (num (finite "3"));
}

abbrev pub judge : EvaluatorPackage
judge = record {
  evaluator_id = "judge";
  version = "1.0.0";
  requirement_id = "checkout";
  description = none;
  checks = total_check ∷ [];
}

abbrev candidate_named : String → String → CapsuleCandidate
candidate_named id path = record {
  candidate_id = id;
  path = path;
  command = "node" ∷ "main.mjs" ∷ [];
  timeout_ms = 1000;
  max_output_bytes = 4096;
}

abbrev pub good_case : CalibrationCase
good_case = record {
  case_id = "gold";
  kind = gold;
  candidate_id = "good";
  target_claim_ids = none;
  expected_claims = record { claim_id = "total"; status = pass } ∷ [];
}

abbrev pub bad_case : CalibrationCase
bad_case = record {
  case_id = "mutant";
  kind = mutant;
  candidate_id = "bad";
  target_claim_ids = some ("total" ∷ []);
  expected_claims = record { claim_id = "total"; status = fail } ∷ [];
}

abbrev pub capsule : LoadedCapsule
capsule = record {
  root = "/capsule";
  manifest = record {
    capsule_id = "shop";
    version = "1.0.0";
    title = "Shop";
    domain = "domain.yaml";
    sources =
        record {
          source_id = "prd";
          kind = requirement;
          path = "sources/prd.md";
          description = some "The product document";
          license = some "MIT";
        }
        ∷ [];
    requirements = "requirements/checkout.yaml" ∷ [];
    evaluators = "evaluators/judge.yaml" ∷ [];
    candidates =
        candidate_named "good" "candidates/good" ∷ candidate_named "bad" "candidates/bad" ∷ [];
    cases = "cases/gold.yaml" ∷ "cases/equivalent.yaml" ∷ "cases/mutant.yaml" ∷ [];
  };
  domain = record {
    domain_id = "orders";
    version = "1.0.0";
    owners = record { owner_id = "ana"; display_name = "Ana" } ∷ [];
    claims = total_claim ∷ tax_claim ∷ [];
  };
  requirements = delta ∷ [];
  evaluators = judge ∷ [];
  cases =
      good_case ∷ record good_case { case_id = "equivalent"; kind = equivalent } ∷ bad_case ∷ [];
}

abbrev pub execution_of : String → CandidateExecution
execution_of stdout = record {
  exit_code = some (pos 0);
  signal = none;
  stdout = stdout;
  stderr = "";
  timed_out = false;
  output_limit_exceeded = false;
}

abbrev pub input_of : String → ExecutionInput
input_of stdout = record {
  capsule = capsule;
  release_sha256 = digest;
  evaluator_ref = "judge@1.0.0";
  requirement_id = "checkout";
  candidate_id = "good";
  candidate_sha256 = digest;
  execution = execution_of stdout;
  initial_diagnostics = [];
}

abbrev pub release : CapsuleRelease
release = record {
  capsule_id = "shop";
  capsule_version = "1.0.0";
  entries =
      record { path = "candidates/bad/main.mjs"; sha256 = digest; size = 10 }
      ∷ record { path = "candidates/good/main.mjs"; sha256 = digest; size = 10 }
      ∷ [];
  claims = "total" ∷ [];
  requirement_edges =
      record { requirement_id = "checkout"; claim_id = "total"; relation = uses; required = true }
      ∷ [];
}

abbrev pub released : ReleasedCapsule
released = record { release = release; sha256 = digest; ref = ".eval/releases/shop.json" }

-- The good Candidate prints the right total, and any other a wrong one.
abbrev pub runner : Runner
runner candidate = finished (
    execution_of
      (if candidate.candidate_id == "good" then "{\"total\":3}\n" else "{\"total\":4}\n"))

abbrev pub is_ok : {A : Type 0} → Result A → Bool
is_ok (ok a) = true
is_ok (err e) = false

-- The value of a result that is there.
abbrev pub the_value : {A : Type 0} (m : Result A) → is_ok m ≡ true → A
the_value (ok a) h = a
the_value (err e) h = cc

pub the_value-ok : {A : Type 0} (m : Result A) (h : is_ok m ≡ true) → m ≡ ok (the_value m h)
the_value-ok (ok a) h = refl
the_value-ok (err e) h = cc
