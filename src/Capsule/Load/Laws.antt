-- ===== src/Capsule/Load/Laws.antt =====
-- What a Capsule that is loaded satisfies.
use domain_eval_weave.Base.{
  ◌≡◌, sym, ap, subst, ◌∙◌, String, true, some, List, [], ◌∷◌, All, Pointwise, Pointwise-map,
  Option, none, Bool, not, arith,
}
use domain_eval_weave.Base.Result.{
  Result, ok, err, require, or_throw, for_each, map_results, >>=-eq-ok, ok-inj,
  map_results-Pointwise, require_iff, >>-ok_iff, or_throw-ok,
}
use domain_eval_weave.Platform.{Platform}
use domain_eval_weave.Capsule.Contracts.{CapsuleSource, CapsuleCandidate, LoadedCapsule}
use domain_eval_weave.Capsule.Schema.Documents.{
  capsule_manifest_schema, capsule_domain_schema, requirement_delta_schema,
  evaluator_package_schema, calibration_case_schema,
}
use domain_eval_weave.Capsule.Schema.Parse.{
  checked, checked-ok, parse_capsule_manifest, parse_capsule_domain, parse_requirement_delta,
  parse_evaluator_package, parse_calibration_case,
}
use domain_eval_weave.Capsule.Semantics.{validate_semantics}
use domain_eval_weave.Capsule.Semantics.Laws.{IsClosed, validate_semantics-ok_iff}
use domain_eval_weave.Capsule.Load.{
  EntryKind, file, directory, symbolic_link, escapes, missing, is_link, is_other, bad_root, leaves,
  Document, unparsed, misshapen, shaped, FileSystem, inside, is_entry, assert_physical_path,
  matched, decoded, read_structured, assert_path, load_capsule, is_physical_root,
}

module _ (fs : FileSystem) where
  -- The physical path of an entry lies inside the physical root.
  abbrev pub IsContained : String → String → Type 0
  IsContained root absolute =
      (physical : String) × (physical_root : String) × (fs.realpath absolute ≡ ok physical)
      × (fs.realpath root ≡ ok physical_root)
      × (inside fs physical_root physical ≡ true)

  -- The path of an entry of the given kind, and no symbolic link, that lies inside the root as it is
  -- written and once all links on the way are followed.
  abbrev pub IsPhysical : String → EntryKind → String → Type 0
  IsPhysical root kind path =
      (inside fs root (fs.resolve root path) ≡ true)
      × (fs.lstat (fs.resolve root path) ≡ some kind)
      × IsContained root (fs.resolve root path)

  -- The document that was read at a path inside the root, which fits its schema.
  abbrev pub IsDocument :
      {A : Type 0} → (String → Document A) → (A → Bool) → String → String → A → Type 0
  IsDocument read schema root path a =
      IsPhysical root file path × (read (fs.resolve root path) ≡ shaped a) × (schema a ≡ true)

  is_entry_lem : (a b : EntryKind) → is_entry a b ≡ true → a ≡ b
  unfolding is_entry
  is_entry_lem a b h = ground arith

  assert_physical_path-IsPhysical :
      (root path : String) (kind : EntryKind) (absolute : String)
      → assert_physical_path fs root path kind ≡ ok absolute
      → IsPhysical root kind path × (fs.resolve root path ≡ absolute)
  unfolding assert_physical_path
  assert_physical_path-IsPhysical root path kind found_at h₀ =
      let absolute = fs.resolve root path in
      let (_, within, h₁) = >>=-eq-ok (require (inside fs root absolute) (escapes path)) _ h₀ in
      let (entry, found, h₂) = >>=-eq-ok (or_throw (fs.lstat absolute) (missing path)) _ h₁ in
      let (_, _, h₃) =
        >>=-eq-ok (require (not (is_entry entry symbolic_link)) (is_link path)) _ h₂ in
      let (_, kind_fits, h₄) =
        >>=-eq-ok (require (is_entry entry kind) (is_other path kind)) _ h₃ in
      let (physical, real, h₅) = >>=-eq-ok (fs.realpath absolute) _ h₄ in
      let (physical_root, real_root, h₆) = >>=-eq-ok (fs.realpath root) _ h₅ in
      let (_, held, same) =
        >>=-eq-ok (require (inside fs physical_root physical) (leaves path)) _ h₆ in
      let of_kind =
        or_throw-ok _ _ found
        ∙ ap (λ k. some k) (is_entry_lem entry kind ((require_iff _ _).0 kind_fits)) in
      let contained : IsContained root absolute =
        (physical, physical_root, real, real_root, (require_iff _ _).0 held) in
      (((require_iff _ _).0 within, of_kind, contained), ok-inj _ _ same)

  assert_path-IsPhysical :
      (root path : String) (kind : EntryKind)
      → assert_path fs root kind path ≡ ok tt
      → IsPhysical root kind path
  unfolding assert_path
  assert_path-IsPhysical root path kind h =
      let (absolute, asserted, _) = >>=-eq-ok (assert_physical_path fs root path kind) _ h in
      (assert_physical_path-IsPhysical root path kind absolute asserted).0

  matched-ok :
      {A : Type 0} (path : String) (r : Result A) (a : A) → matched fs path r ≡ ok a → r ≡ ok a
  matched-ok path (ok b) a h = h
  matched-ok path (err e) a h = cc

  decoded-ok :
      {A : Type 0} (path name : String) (schema : A → Bool) (d : Document A) (a : A)
      → decoded fs path (checked schema name) d ≡ ok a
      → (d ≡ shaped a) × (schema a ≡ true)
  decoded-ok path name schema (unparsed m) a h = cc
  decoded-ok path name schema (misshapen m) a h = cc
  decoded-ok path name schema (shaped value) a h =
      let (fits, same) = checked-ok schema name value a (matched-ok path _ a h) in
      (ap (λ v. shaped v) (sym same), subst (λ x. schema x ≡ true) (sym same) fits)

  read_structured-IsDocument :
      {A : Type 0} (root name : String) (read : String → Document A) (schema : A → Bool)
      (path : String) (a : A)
      → read_structured fs root read (checked schema name) path ≡ ok a
      → IsDocument read schema root path a
  unfolding read_structured
  read_structured-IsDocument root name read schema path a h =
      let (absolute, asserted, h₁) = >>=-eq-ok (assert_physical_path fs root path file) _ h in
      let (physical, at) = assert_physical_path-IsPhysical root path file absolute asserted in
      let (shape, fits) = decoded-ok path name schema (read absolute) a h₁ in
      (physical, ap read at ∙ shape, fits)

  each_path :
      {A : Type 0} (root : String) (kind : EntryKind) (path : A → String) (xs : List A)
      → for_each (λ x. assert_path fs root kind (path x)) xs ≡ ok tt
      → All (λ x. IsPhysical root kind (path x)) xs
  each_path root kind path [] h = tt
  each_path root kind path (x ∷ xs) h =
      let (here, later) = (>>-ok_iff _ _).0 h in
      (assert_path-IsPhysical root (path x) kind here, each_path root kind path xs later)

  each_document :
      {A : Type 0} (root name : String) (read : String → Document A) (schema : A → Bool)
      (paths : List String) (values : List A)
      → map_results (read_structured fs root read (checked schema name)) paths ≡ ok values
      → Pointwise (IsDocument read schema root) paths values
  each_document root name read schema paths values h =
      Pointwise-map paths values (read_structured-IsDocument root name read schema)
        (map_results-Pointwise _ paths values h)

  -- The root is the physical path of a directory. The manifest is the document at `capsule.yaml` and
  -- the other documents are those at the manifest's paths, in order; each is a file inside the root
  -- and fits its schema. Every source is a file and every Candidate a directory inside the root, and
  -- all references are closed.
  pub record IsLoaded (p : Platform) (requested_root : String) (capsule : LoadedCapsule)
      : Type 0 where
    pub root :
        (fs.lstat requested_root ≡ some directory) × (fs.realpath requested_root ≡ ok capsule.root)
    pub manifest :
        IsDocument fs.manifest_at capsule_manifest_schema capsule.root "capsule.yaml"
          capsule.manifest
    pub domain :
        IsDocument fs.domain_at capsule_domain_schema capsule.root capsule.manifest.domain
          capsule.domain
    pub requirements :
        Pointwise
          (IsDocument fs.requirement_at requirement_delta_schema capsule.root)
          capsule.manifest.requirements
          capsule.requirements
    pub evaluators :
        Pointwise
          (IsDocument fs.evaluator_at evaluator_package_schema capsule.root)
          capsule.manifest.evaluators
          capsule.evaluators
    pub cases :
        Pointwise
          (IsDocument fs.case_at calibration_case_schema capsule.root)
          capsule.manifest.cases
          capsule.cases
    pub sources :
        All (λ s. IsPhysical capsule.root file (CapsuleSource.path s)) capsule.manifest.sources
    pub candidates :
        All
          (λ c. IsPhysical capsule.root directory (CapsuleCandidate.path c))
          capsule.manifest.candidates
    pub closed : IsClosed p capsule

  is_physical_root-ok :
      (entry : Option EntryKind) → is_physical_root fs entry ≡ true → entry ≡ some directory
  unfolding is_physical_root
  is_physical_root-ok none h = cc
  is_physical_root-ok (some entry) h = ap (λ k. some k) (is_entry_lem entry directory h)

  -- A Capsule that `loadCapsule` returns is loaded: its root is the physical path of a directory, its
  -- documents are those that stand at the manifest's paths and fit their schemas, its references are
  -- closed, and all its paths, with the links on the way followed, lead to files, or for Candidates
  -- to directories, inside the root.
  pub load_capsule-IsLoaded :
      (p : Platform) (requested_root : String) (capsule : LoadedCapsule)
      → load_capsule fs p requested_root ≡ ok capsule
      → IsLoaded p requested_root capsule
  unfolding load_capsule parse_capsule_manifest parse_capsule_domain parse_requirement_delta
      parse_evaluator_package parse_calibration_case
  load_capsule-IsLoaded p requested_root capsule h =
      let (_, there, h₀) =
        >>=-eq-ok
          (require (is_physical_root fs (fs.lstat requested_root)) (bad_root requested_root)) _ h in
      let (root, real, h₁) = >>=-eq-ok (fs.realpath requested_root) _ h₀ in
      let (manifest, m, h₂) =
        >>=-eq-ok (read_structured fs root fs.manifest_at parse_capsule_manifest "capsule.yaml") _
          h₁ in
      let (domain, d, h₃) =
        >>=-eq-ok (read_structured fs root fs.domain_at parse_capsule_domain manifest.domain) _
          h₂ in
      let (requirements, r, h₄) =
        >>=-eq-ok
          (map_results (read_structured fs root fs.requirement_at parse_requirement_delta)
            manifest.requirements)
          _ h₃ in
      let (evaluators, e, h₅) =
        >>=-eq-ok
          (map_results (read_structured fs root fs.evaluator_at parse_evaluator_package)
            manifest.evaluators)
          _ h₄ in
      let (cases, c, h₆) =
        >>=-eq-ok
          (map_results (read_structured fs root fs.case_at parse_calibration_case) manifest.cases) _
          h₅ in
      let (_, s, h₇) =
        >>=-eq-ok (for_each (λ x. assert_path fs root file (CapsuleSource.path x)) manifest.sources)
          _ h₆ in
      let (_, k, h₈) =
        >>=-eq-ok
          (for_each (λ x. assert_path fs root directory (CapsuleCandidate.path x))
            manifest.candidates)
          _ h₇ in
      let loaded : LoadedCapsule = record {
        root = root;
        manifest = manifest;
        domain = domain;
        requirements = requirements;
        evaluators = evaluators;
        cases = cases;
      } in
      let (_, v, same) = >>=-eq-ok (validate_semantics p loaded) _ h₈ in
      subst (IsLoaded p requested_root) (ok-inj _ _ same) (record {
        root = (is_physical_root-ok (fs.lstat requested_root) ((require_iff _ _).0 there), real);
        manifest =
            read_structured-IsDocument root "CapsuleManifest" fs.manifest_at capsule_manifest_schema
              "capsule.yaml" manifest m;
        domain =
            read_structured-IsDocument root "CapsuleDomain" fs.domain_at capsule_domain_schema
              manifest.domain domain d;
        requirements =
            each_document root "RequirementDelta" fs.requirement_at requirement_delta_schema _
              requirements r;
        evaluators =
            each_document root "EvaluatorPackage" fs.evaluator_at evaluator_package_schema _
              evaluators e;
        cases = each_document root "CalibrationCase" fs.case_at calibration_case_schema _ cases c;
        sources = each_path root file (λ x. CapsuleSource.path x) manifest.sources s;
        candidates = each_path root directory (λ x. CapsuleCandidate.path x) manifest.candidates k;
        closed = (validate_semantics-ok_iff p loaded).0 v;
      })
