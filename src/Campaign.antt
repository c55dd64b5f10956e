-- ===== src/Campaign.antt =====
-- src/campaign/state.ts: the phase of a Campaign, kept in one file. `#write` replaces the file
-- whole, by a rename, so what a reader finds is a document that was written in full.
pub mod Phases
pub mod Laws
use domain_eval_weave.Base.{
  ℕ, zero, suc, ◌+◌, ℤ, pos, negsuc, String, Bool, true, false, Option, none, some, List, [], ◌∷◌,
  any, find, leb, ltb, eqb, ◌==◌, if◌then◌else◌, template,
}
use domain_eval_weave.Base.Result.{
  Failure, campaign_state_error, Result, ok, err, require, or_throw, ◌>>=◌, ◌>>◌,
}

pub data Phase : Type 0 where
  prepared qualified arm_1_running arm_1_frozen arm_2_running arm_2_frozen : Phase
  oracle_running projected reported interrupted : Phase

unfoldable pub phase_name : Phase → String
phase_name prepared = "prepared"
phase_name qualified = "qualified"
phase_name arm_1_running = "arm_1_running"
phase_name arm_1_frozen = "arm_1_frozen"
phase_name arm_2_running = "arm_2_running"
phase_name arm_2_frozen = "arm_2_frozen"
phase_name oracle_running = "oracle_running"
phase_name projected = "projected"
phase_name reported = "reported"
phase_name interrupted = "interrupted"

-- `TRANSITIONS`
unfoldable pub transitions : Phase → List Phase
transitions prepared = qualified ∷ interrupted ∷ []
transitions qualified = arm_1_running ∷ interrupted ∷ []
transitions arm_1_running = arm_1_frozen ∷ interrupted ∷ []
transitions arm_1_frozen = arm_2_running ∷ interrupted ∷ []
transitions arm_2_running = arm_2_frozen ∷ interrupted ∷ []
transitions arm_2_frozen = oracle_running ∷ interrupted ∷ []
transitions oracle_running = projected ∷ interrupted ∷ []
transitions projected = reported ∷ interrupted ∷ []
transitions reported = []
transitions interrupted = []

pub record CampaignState : Type 0 where
  pub campaign_id : String
  pub phase : Phase
  pub revision : ℤ

-- A value of a JSON document, as far as `read` looks: a text, an integer, or another value.
pub data Scalar : Type 0 where
  text : String → Scalar
  integer : ℤ → Scalar
  other : Scalar

-- What `JSON.parse` makes of the state file: `malformed` where it throws, `not_object` for an
-- array or a value that is no object.
pub data StateFile : Type 0 where
  absent malformed not_object : StateFile
  document : List (String × Scalar) → StateFile

-- `Number.MAX_SAFE_INTEGER`
abbrev pub max_safe_integer : ℕ
max_safe_integer = 9007199254740991

unfoldable pub is_safe_integer : ℤ → Bool
is_safe_integer (pos n) = leb n max_safe_integer
is_safe_integer (negsuc n) = ltb n max_safe_integer

-- `n + 1`
unfoldable pub next_integer : ℤ → ℤ
next_integer (pos n) = pos (n + 1)
next_integer (negsuc zero) = pos 0
next_integer (negsuc (suc n)) = negsuc n

abbrev all_phases : List Phase
all_phases =
    prepared ∷ qualified ∷ arm_1_running ∷ arm_1_frozen ∷ arm_2_running ∷ arm_2_frozen
    ∷ oracle_running ∷ projected ∷ reported ∷ interrupted ∷ []

-- `Object.hasOwn(TRANSITIONS, name)`, with the phase of that name.
unfoldable pub phase_of_name : String → Option Phase
unfolding phase_name
phase_of_name name = find (λ phase. phase_name phase == name) all_phases

abbrev invalid_contract : Failure
invalid_contract =
    campaign_state_error "CAMPAIGN_STATE_INVALID" "Campaign state contract is invalid"

abbrev value_at : String → List (String × Scalar) → Option Scalar
value_at key [] = none
value_at key ((k, v) ∷ rest) = if k == key then some v else value_at key rest

abbrev is_one : Option Scalar → Bool
is_one (some (integer (pos n))) = eqb n 1
is_one _ = false

abbrev text_of : Option Scalar → Option String
text_of (some (text s)) = some s
text_of _ = none

abbrev integer_of : Option Scalar → Option ℤ
integer_of (some (integer n)) = some n
integer_of _ = none

-- The guard of `read` on an object, and the value cast to `CampaignState`.
unfoldable pub decode : List (String × Scalar) → Result CampaignState
unfolding phase_of_name is_safe_integer
decode fields = do
  require (is_one (value_at "schema_version" fields)) invalid_contract
  campaign_id ← or_throw (text_of (value_at "campaign_id" fields)) invalid_contract
  name ← or_throw (text_of (value_at "phase" fields)) invalid_contract
  phase ← or_throw (phase_of_name name) invalid_contract
  revision ← or_throw (integer_of (value_at "revision" fields)) invalid_contract
  require (is_safe_integer revision) invalid_contract
  ok (record { campaign_id = campaign_id; phase = phase; revision = revision })

unfoldable pub read : StateFile → Result CampaignState
unfolding decode
read (document fields) = decode fields
read not_object = err invalid_contract
read _ = err (campaign_state_error "CAMPAIGN_STATE_INVALID" "Campaign state is unreadable")

-- `JSON.stringify(state)`, as it is parsed again.
unfoldable pub written : CampaignState → StateFile
unfolding phase_name
written state = document (
    ("schema_version", integer (pos 1))
    ∷ ("campaign_id", text state.campaign_id)
    ∷ ("phase", text (phase_name state.phase))
    ∷ ("revision", integer state.revision)
    ∷ [])

-- Each operation returns the file that it leaves and what it resolves to or throws.
abbrev initialized : String → CampaignState → Result CampaignState
initialized campaign_id existing =
    if existing.campaign_id == campaign_id
    then ok existing
    else err (campaign_state_error "CAMPAIGN_STATE_COLLISION" "Campaign state id mismatch")

unfoldable pub initialize : String → StateFile → StateFile × Result CampaignState
unfolding read written
initialize campaign_id absent =
    let state : CampaignState = record {
      campaign_id = campaign_id;
      phase = prepared;
      revision = pos 0;
    } in
    (written state, ok state)
initialize campaign_id file = (file, read file >>= initialized campaign_id)

abbrev moved : CampaignState → Phase → CampaignState
moved current next = record {
  campaign_id = current.campaign_id;
  phase = next;
  revision = next_integer current.revision;
}

-- `TRANSITIONS[phase].includes(next)`
unfoldable pub allows : Phase → Phase → Bool
unfolding transitions phase_name
allows phase next = any (λ q. phase_name q == phase_name next) (transitions phase)

abbrev transition_from : Phase → StateFile → Result CampaignState → StateFile × Result CampaignState
transition_from next file (err e) = (file, err e)
transition_from next file (ok current) =
    if allows current.phase next then (written (moved current next), ok (moved current next)) else (
      file,
      err (
          campaign_state_error "CAMPAIGN_TRANSITION_INVALID" (
            template (
              "cannot transition Campaign from "
              ∷ phase_name current.phase
              ∷ " to "
              ∷ phase_name next
              ∷ []))),
    )

unfoldable pub transition : Phase → StateFile → StateFile × Result CampaignState
unfolding read written allows next_integer
transition next file = transition_from next file (read file)

abbrev pub is_settled : Phase → Bool
is_settled reported = true
is_settled interrupted = true
is_settled projected = true
is_settled _ = false

abbrev recover_from : StateFile → Result CampaignState → StateFile × Result CampaignState
recover_from file (err e) = (file, err e)
recover_from file (ok current) =
    if is_settled current.phase then (file, ok current) else transition interrupted file

unfoldable pub recover_after_crash : StateFile → StateFile × Result CampaignState
unfolding read transition
recover_after_crash file = recover_from file (read file)
