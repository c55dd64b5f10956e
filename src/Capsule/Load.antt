-- ===== src/Capsule/Load.antt =====
-- `loadCapsule` of packages/weave/src/capsule/loader.ts, with `assertPhysicalPath` and
-- `readStructured`. What node:path and the file system answer are the fields of a record. Documents
-- that are read at once (`Promise.all`) are read in their order.
pub mod Laws
use domain_eval_weave.Base.{
  String, Bool, true, false, ◌&&◌, ◌||◌, not, Option, none, some, List, ◌==◌, starts_with,
  if◌then◌else◌, template, [], ◌∷◌,
}
use domain_eval_weave.Base.Result.{
  Failure, capsule_error, schema_error, Result, ok, err, require, or_throw, for_each, map_results,
  ◌>>=◌, ◌>>◌,
}
use domain_eval_weave.Platform.{Platform}
use domain_eval_weave.Capsule.Contracts.{
  CapsuleSource, CapsuleCandidate, CapsuleManifest, CapsuleDomain, RequirementDelta,
  EvaluatorPackage, CalibrationCase, LoadedCapsule,
}
use domain_eval_weave.Capsule.Schema.Parse.{
  parse_capsule_manifest, parse_capsule_domain, parse_requirement_delta, parse_evaluator_package,
  parse_calibration_case,
}
use domain_eval_weave.Capsule.Semantics.{validate_semantics}

pub data EntryKind : Type 0 where
  file directory symbolic_link special : EntryKind

-- What reading a file and parsing it gives: an error, a value that has not the shape of the
-- document, or one that has.
pub data Document (A : Type 0) : Type 0 where
  unparsed misshapen : String → Document A
  shaped : A → Document A

pub record FileSystem : Type 0 where
  -- `resolve(root, path)` and `relative(root, path)`
  pub resolve : String → String → String
  pub relative : String → String → String
  pub lstat : String → Option EntryKind
  pub realpath : String → Result String
  pub manifest_at : String → Document CapsuleManifest
  pub domain_at : String → Document CapsuleDomain
  pub requirement_at : String → Document RequirementDelta
  pub evaluator_at : String → Document EvaluatorPackage
  pub case_at : String → Document CalibrationCase

unfoldable pub is_entry : EntryKind → EntryKind → Bool
is_entry file file = true
is_entry directory directory = true
is_entry symbolic_link symbolic_link = true
is_entry special special = true
is_entry _ _ = false

abbrev kind_name : EntryKind → String
kind_name directory = "directory"
kind_name _ = "file"

abbrev pub escapes : String → Failure
escapes path = capsule_error "CAPSULE_PATH_ESCAPE" "Capsule path escapes its root" (some path)

abbrev pub leaves : String → Failure
leaves path =
    capsule_error "CAPSULE_PATH_ESCAPE" "Capsule path resolves outside its root" (some path)

abbrev pub missing : String → Failure
missing path = capsule_error "CAPSULE_PATH_MISSING" "Capsule path does not exist" (some path)

abbrev pub is_link : String → Failure
is_link path = capsule_error "CAPSULE_SYMLINK_DENIED" "Capsule paths cannot be symlinks" (some path)

abbrev pub is_other : String → EntryKind → Failure
is_other path expected =
    capsule_error "CAPSULE_PATH_TYPE_INVALID"
      (template ("Capsule path must be a " ∷ kind_name expected ∷ [])) (some path)

abbrev pub bad_root : String → Failure
bad_root root =
    capsule_error "CAPSULE_ROOT_INVALID" "Capsule root must be a physical directory" (some root)

-- The message of what a schema throws.
abbrev schema_message : Failure → String
schema_message (schema_error name) = name
schema_message other = "Capsule document does not match its schema"

module _ (fs : FileSystem) where
  unfoldable pub inside : String → String → Bool
  unfolding starts_with
  inside root path =
      let relation = fs.relative root path in
      relation == "" || not (starts_with relation "..") && not (starts_with relation "/")

  unfoldable pub assert_physical_path : String → String → EntryKind → Result String
  unfolding inside is_entry
  assert_physical_path root relative_path expected = do
    let absolute = fs.resolve root relative_path
    require (inside root absolute) (escapes relative_path)
    entry ← or_throw (fs.lstat absolute) (missing relative_path)
    require (not (is_entry entry symbolic_link)) (is_link relative_path)
    require (is_entry entry expected) (is_other relative_path expected)
    physical ← fs.realpath absolute
    physical_root ← fs.realpath root
    require (inside physical_root physical) (leaves relative_path)
    ok absolute

  abbrev pub matched : {A : Type 0} → String → Result A → Result A
  matched relative_path (ok value) = ok value
  matched relative_path (err e) =
      err (capsule_error "CAPSULE_SCHEMA_INVALID" (schema_message e) (some relative_path))

  abbrev pub decoded : {A : Type 0} → String → (A → Result A) → Document A → Result A
  decoded relative_path parse_value (unparsed message) =
      err (capsule_error "CAPSULE_DOCUMENT_INVALID" message (some relative_path))
  decoded relative_path parse_value (misshapen message) =
      err (capsule_error "CAPSULE_SCHEMA_INVALID" message (some relative_path))
  decoded relative_path parse_value (shaped value) = matched relative_path (parse_value value)

  unfoldable pub read_structured :
      {A : Type 0} → String → (String → Document A) → (A → Result A) → String → Result A
  unfolding assert_physical_path
  read_structured root read parse_value relative_path = do
    absolute ← assert_physical_path root relative_path file
    decoded relative_path parse_value (read absolute)

  -- The root is there, a directory and no symbolic link.
  unfoldable pub is_physical_root : Option EntryKind → Bool
  unfolding is_entry
  is_physical_root none = false
  is_physical_root (some entry) = is_entry entry directory

  unfoldable pub assert_path : String → EntryKind → String → Result (Unit {0})
  unfolding assert_physical_path
  assert_path root kind path = do absolute ← assert_physical_path root path kind; ok tt

  unfoldable pub load_capsule : Platform → String → Result LoadedCapsule
  unfolding is_physical_root
  load_capsule p requested_root = do
    require (is_physical_root (fs.lstat requested_root)) (bad_root requested_root)
    root ← fs.realpath requested_root
    manifest ← read_structured root fs.manifest_at parse_capsule_manifest "capsule.yaml"
    domain ← read_structured root fs.domain_at parse_capsule_domain manifest.domain
    requirements ←
        map_results (read_structured root fs.requirement_at parse_requirement_delta)
          manifest.requirements
    evaluators ←
        map_results (read_structured root fs.evaluator_at parse_evaluator_package)
          manifest.evaluators
    cases ← map_results (read_structured root fs.case_at parse_calibration_case) manifest.cases
    for_each (λ s. assert_path root file (CapsuleSource.path s)) manifest.sources
    for_each (λ c. assert_path root directory (CapsuleCandidate.path c)) manifest.candidates
    let loaded : LoadedCapsule = record {
      root = root;
      manifest = manifest;
      domain = domain;
      requirements = requirements;
      evaluators = evaluators;
      cases = cases;
    }
    validate_semantics p loaded
    ok loaded
