-- ===== src/Tests/Loading.antt =====
-- The small Capsule is loaded from a file system that holds it.
use domain_eval_weave.Base.{
  ◌≡◌, refl, true, ◌||◌, some, ◌==◌, if◌then◌else◌, all_codes, codes_count, decimal, has_part, join,
  sort_by, split, starts_with, template, text_leb,
}
use domain_eval_weave.Base.Result.{ok}
use domain_eval_weave.Capsule.Contracts.{LoadedCapsule, equivalent}
use domain_eval_weave.Capsule.Load.{
  FileSystem, file, directory, shaped, load_capsule, assert_path, assert_physical_path, inside,
  is_entry, is_physical_root, read_structured,
}
use domain_eval_weave.Capsule.Load.Laws.{IsLoaded, load_capsule-IsLoaded}
use domain_eval_weave.Tests.{
  platform, capsule, delta, judge, good_case, bad_case, is_ok, the_value, the_value-ok,
}
use domain_eval_weave.Capsule.Schema.Documents.{
  calibration_case_schema, capsule_candidate_schema, capsule_domain_schema, capsule_manifest_schema,
  capsule_source_schema, claim_fits_domain, claim_schema, edge_key, evaluator_check_schema,
  evaluator_package_schema, is_confirmed, is_conflicted, manifest_paths, relation_name,
  requirement_delta_schema,
}
use domain_eval_weave.Capsule.Schema.Parse.{
  parse_calibration_case, parse_capsule_domain, parse_capsule_manifest, parse_evaluator_package,
  parse_requirement_delta,
}
use domain_eval_weave.Capsule.Schema.Patterns.{
  sha256_matches, bounded, id_matches, non_empty, relative_path_matches, unique_by, unique_strings,
  version_matches,
}
use domain_eval_weave.Capsule.Semantics.{
  claim_confirmation_projection, status_name, validate_semantics,
}
use domain_eval_weave.Json.{canonical_json, serialize}
use domain_eval_weave.Json.Quote.{quote}
use domain_eval_weave.Platform.{canonical_json_digest}

abbrev files : FileSystem
files = record {
  resolve = λ root path. path;
  relative = λ root path. path;
  lstat = λ path.
      if path == "." || path == "candidates/good" || path == "candidates/bad"
      then some directory
      else some file;
  realpath = λ path. ok path;
  manifest_at = λ path. shaped capsule.manifest;
  domain_at = λ path. shaped capsule.domain;
  requirement_at = λ path. shaped delta;
  evaluator_at = λ path. shaped judge;
  case_at = λ path.
      if path == "cases/gold.yaml"
      then shaped good_case
      else if path == "cases/mutant.yaml"
      then shaped bad_case
      else shaped (record good_case { case_id = "equivalent"; kind = equivalent });
}

loaded_is_ok : is_ok (load_capsule files platform ".") ≡ true
unfolding load_capsule all_codes assert_path assert_physical_path bounded calibration_case_schema
    canonical_json canonical_json_digest capsule_candidate_schema capsule_domain_schema
    capsule_manifest_schema capsule_source_schema claim_confirmation_projection claim_fits_domain
    claim_schema codes_count decimal edge_key evaluator_check_schema evaluator_package_schema
    has_part id_matches inside is_confirmed is_conflicted is_entry is_physical_root join
    manifest_paths non_empty parse_calibration_case parse_capsule_domain parse_capsule_manifest
    parse_evaluator_package parse_requirement_delta quote read_structured relation_name
    relative_path_matches requirement_delta_schema serialize sort_by split starts_with status_name
    template text_leb unique_by unique_strings validate_semantics version_matches sha256_matches
loaded_is_ok = refl

abbrev loaded : LoadedCapsule
loaded = the_value (load_capsule files platform ".") loaded_is_ok

load_capsule-IsLoaded_example : IsLoaded files platform "." loaded
load_capsule-IsLoaded_example =
    load_capsule-IsLoaded files platform "." loaded (the_value-ok _ loaded_is_ok)
