-- ===== src/Evaluator/Calibration/Compare/Changes.antt =====
-- The claims on which two Runs differ (packages/weave/src/evaluator/calibration.ts).
use domain_eval_weave.Base.{
  ◌≡◌, ◌≢◌, ◌↔◌, ◌⊎◌, inl, inr, refl, sym, ap, subst, ◌∙◌, String, true, false, none, some, Option,
  List, [], ◌∷◌, ◌++◌, map, All, All-map, Any, includes, is_unique, map_get, map_get-key, eq_refl,
  eq_iff, arith, flat_map, Option-cases, ◌==◌, if◌then◌else◌, Bool-cases, some-inj,
}
use domain_eval_weave.Capsule.Contracts.{
  ClaimResult, ResultStatus, pass, fail, inconclusive, measurement_error, EvaluationRun,
}
use domain_eval_weave.Evaluator.Encode.{status_text}
use domain_eval_weave.Evaluator.Calibration.Report.{status_at}
use domain_eval_weave.Evaluator.Calibration.Compare.{ClaimChange, change_of, claim_changes}

unique_parts :
    (k : String) (ks : List String)
    → is_unique (k ∷ ks) ≡ true
    → (includes k ks ≡ false) × (is_unique ks ≡ true)
unique_parts k ks h = ground arith

module _ {A : Type 0} (key : A → String) where
  map_get-none :
      (k : String) (xs : List A) → includes k (map key xs) ≡ false → map_get key k xs ≡ none
  map_get-none k [] h = refl
  map_get-none k (x ∷ xs) h = ground (arith, map_get-none k xs)

  -- Under unique keys every entry is the one that its key finds.
  map_get_self :
      (xs : List A) → is_unique (map key xs) ≡ true → All (λ x. map_get key (key x) xs ≡ some x) xs
  map_get_self [] h = tt
  map_get_self (x ∷ xs) h =
      let (e, u) = unique_parts (key x) (map key xs) h in
      (
        rw (map_get-none (key x) xs e, eq_refl (key x)) refl,
        All-map xs (λ y found. rw found refl) (map_get_self xs u),
      )

status_at_self :
    (run : EvaluationRun)
    → is_unique (map (λ c. ClaimResult.claim_id c) run.claims) ≡ true
    → All (λ c. status_at run (ClaimResult.claim_id c) ≡ some c.status) run.claims
unfolding status_at
status_at_self run h =
    All-map run.claims
      (λ c
          (found : map_get (λ d. ClaimResult.claim_id d) (ClaimResult.claim_id c) run.claims
            ≡ some c).
        rw (found, status_at) refl)
      (map_get_self (λ c. ClaimResult.claim_id c) run.claims h)

-- The Run has a result for the Claim, in the status.
abbrev pub Judges : EvaluationRun → String → ResultStatus → Type 0
Judges run id status =
    Any (λ c. (ClaimResult.claim_id c ≡ id) × (ClaimResult.status c ≡ status)) run.claims

-- Both Runs judge the Claim, in the two statuses of the change, which are not the same.
abbrev pub Differs : EvaluationRun → EvaluationRun → ClaimChange → Type 0
Differs left right change =
    Judges left change.claim_id change.left
    × Judges right change.claim_id change.right
    × (change.left ≢ change.right)

module _ {A : Type 0} (P : A → Type 0) where
  Any-append_iff : (xs ys : List A) → Any P (xs ++ ys) ↔ (Any P xs ⊎ Any P ys)
  Any-append_iff [] ys = ground arith
  Any-append_iff (x ∷ xs) ys = ground (arith, Any-append_iff xs ys)

  Any-flat_map_iff :
      {B : Type 0} (f : B → List A) (xs : List B)
      → Any P (flat_map f xs) ↔ Any (λ x. Any P (f x)) xs
  Any-flat_map_iff f [] = ground arith
  Any-flat_map_iff f (x ∷ xs) =
      let parts = Any-append_iff (f x) (flat_map f xs) in
      let ih = Any-flat_map_iff f xs in ground arith

-- An entry that is equal to some entry of the list has what all entries have.
All-Any :
    {A : Type 0} {P Q S : A → Type 0} (xs : List A)
    → ((x : A) → P x → Q x → S x)
    → All P xs
    → Any Q xs
    → Any S xs
All-Any [] f ps q = q
All-Any (x ∷ xs) f (p, ps) (inl q) = inl (f x p q)
All-Any (x ∷ xs) f (p, ps) (inr q) = inr (All-Any xs f ps q)

Any-map :
    {A : Type 0} {P Q : A → Type 0} (xs : List A) → ((x : A) → P x → Q x) → Any P xs → Any Q xs
Any-map [] f a = a
Any-map (x ∷ xs) f (inl p) = inl (f x p)
Any-map (x ∷ xs) f (inr a) = inr (Any-map xs f a)

Any-found : {A : Type 0} {B : Type 0} (xs : List A) → Any (λ x. B) xs → B
Any-found [] a = absurd a
Any-found (x ∷ xs) (inl b) = b
Any-found (x ∷ xs) (inr a) = Any-found xs a

map_get-Any :
    {A : Type 0} (key : A → String) (k : String) (xs : List A) (a : A)
    → map_get key k xs ≡ some a
    → Any (λ x. x ≡ a) xs
map_get-Any key k [] a h = cc
map_get-Any key k (x ∷ xs) a h = elim (Option-cases (map_get key k xs)) [
  | inr (b, e) ↦ inr (map_get-Any key k xs a (ground arith))
  | inl e ↦ inl (ground arith)
]

status_named : String → Option ResultStatus
status_named text =
    if text == "pass"
    then some pass
    else if text == "fail"
    then some fail
    else if text == "inconclusive"
    then some inconclusive
    else some measurement_error

status_named-status_text : (s : ResultStatus) → status_named (status_text s) ≡ some s
unfolding status_named
status_named-status_text pass = refl
status_named-status_text fail = refl
status_named-status_text inconclusive = refl
status_named-status_text measurement_error = refl

status_text-inj : (s t : ResultStatus) → status_text s ≡ status_text t → s ≡ t
status_text-inj s t e =
    some-inj s t
      (sym (status_named-status_text s) ∙ (ap status_named e ∙ status_named-status_text t))

-- The lookup of a Claim finds the status in which a Run without repeated Claims judges it.
status_at_iff :
    (run : EvaluationRun) (id : String) (s : ResultStatus)
    → is_unique (map (λ c. ClaimResult.claim_id c) run.claims) ≡ true
    → (status_at run id ≡ some s) ↔ Judges run id s
unfolding status_at
status_at_iff run id s unique = (
  (λ h. elim (Option-cases (map_get (λ c. ClaimResult.claim_id c) id run.claims)) [
    | inl e ↦ cc
    | inr (c, e) ↦
        let named = map_get-key (λ c. ClaimResult.claim_id c) id run.claims c e in
        let at : some c.status ≡ some s = rw (status_at, e) at h in
        Any-map run.claims
          (λ d (q : d ≡ c). (
            ap (λ x. ClaimResult.claim_id x) q ∙ named,
            ap (λ x. ClaimResult.status x) q ∙ some-inj _ _ at,
          ))
          (map_get-Any (λ c. ClaimResult.claim_id c) id run.claims c e)
  ]),
  (λ judged. Any-found run.claims (
      All-Any run.claims
        (λ c at (named, is). subst (λ k. status_at run k ≡ some s) named (at ∙ ap some is))
        (status_at_self run unique) judged)),
)

only : {A : Type 0} (x y : A) → Any (λ q. q ≡ y) (x ∷ []) → x ≡ y
only x y (inl p) = p
only x y (inr a) = absurd a

change_of_iff :
    (c : ClaimResult) (o : Option ResultStatus) (change : ClaimChange)
    → Any (λ q. q ≡ change) (change_of c o) ↔ (
        (c.claim_id ≡ change.claim_id)
        × (c.status ≡ change.left)
        × (o ≡ some change.right)
        × (change.left ≢ change.right))
change_of_iff c none change = ((λ a. absurd a), (λ (_, _, e, _). cc))
change_of_iff c (some right) change =
    elim (Bool-cases (status_text right == status_text c.status)) [
      | inl t ↦
          let same = status_text-inj right c.status ((eq_iff _ _).0 t) in
          (
            (λ a. absurd (rw t at a)),
            (λ (_, l, r, ne). absurd (ne (sym l ∙ (sym same ∙ some-inj _ _ r)))),
          )
      | inr f ↦
          let made : ClaimChange = record {
            claim_id = c.claim_id;
            left = c.status;
            right = right;
          } in
          let apart : c.status ≢ right =
            λ e. cc (sym f ∙ (eq_iff _ _).1 (ap status_text (sym e))) in
          (
            (λ a.
                let q : made ≡ change = only made change (rw f at a) in
                (
                  ap (λ x. ClaimChange.claim_id x) q,
                  ap (λ x. ClaimChange.left x) q,
                  ap (λ x. some (ClaimChange.right x)) q,
                  λ e. apart (
                      ap (λ x. ClaimChange.left x) q ∙ (e ∙ sym (ap (λ x. ClaimChange.right x) q))),
                )),
            (λ (id, l, r, ne).
                let q : made ≡ change =
                  λ i. record { claim_id = id i; left = l i; right = some-inj _ _ r i } in
                rw f (inl q)),
          )
    ]

-- The changes of two Runs that repeat no Claim are exactly those in which the Runs differ.
pub claim_changes_iff :
    (left right : EvaluationRun) (change : ClaimChange)
    → is_unique (map (λ c. ClaimResult.claim_id c) right.claims) ≡ true
    → Any (λ q. q ≡ change) (claim_changes left right) ↔ Differs left right change
unfolding claim_changes
claim_changes_iff left right change unique =
    let parts =
      Any-flat_map_iff (λ q. q ≡ change)
        (λ c. change_of c (status_at right (ClaimResult.claim_id c))) left.claims in
    let found = status_at_iff right change.claim_id change.right unique in
    (
      (λ a.
          let both = parts.0 a in
          let each =
            Any-map left.claims (λ c b. (change_of_iff c (status_at right c.claim_id) change).0 b)
              both in
          let judged : Judges left change.claim_id change.left =
            Any-map left.claims (λ c (id, l, _, _). (id, l)) each in
          let rest : (status_at right change.claim_id ≡ some change.right)
              × (change.left ≢ change.right) =
            Any-found left.claims (
              Any-map left.claims
                (λ c (id, _, r, ne). (subst (λ k. status_at right k ≡ some change.right) id r, ne))
                each) in
          (judged, found.0 rest.0, rest.1)),
      (λ (l, r, ne). parts.1 (
          Any-map left.claims
            (λ c (id, is).
              (change_of_iff c (status_at right c.claim_id) change).1 (
                id,
                is,
                subst (λ k. status_at right k ≡ some change.right) (sym id) (found.1 r),
                ne,
              ))
            l)),
    )
