-- ===== src/Tests/Stores.antt =====
-- A Campaign's file and an artifact's file.
use domain_eval_weave.Base.{◌≡◌, refl, ◌⊎◌, inl, ◌↔◌, true, List, [], ◌∷◌, none, some, pos}
use domain_eval_weave.Base.Result.{Failure, plain_error, ok}
use domain_eval_weave.Artifacts.{Store, lookup, write_exclusive_or_verify}
use domain_eval_weave.Artifacts.Laws.{write_exclusive_or_verify-ok_iff, lookup-write_kept}
use domain_eval_weave.Campaign.{
  qualified, arm_1_running, reported, CampaignState, absent, read, written, recover_after_crash,
  is_safe_integer, is_settled,
}
use domain_eval_weave.Campaign.Laws.{
  Command, initialize_as, transition_to, recover, after_all, IsSound, read-written,
  after_all-IsSound, after_all-ended, recover_after_crash-settles,
}
use domain_eval_weave.Campaign.Phases.{revision_fits}

abbrev commands : List Command
commands =
    initialize_as "c1"
    ∷ transition_to qualified
    ∷ transition_to reported
    ∷ transition_to arm_1_running
    ∷ recover
    ∷ []

after_all-IsSound_example : IsSound (after_all commands absent)
after_all-IsSound_example = after_all-IsSound commands absent (inl refl)

abbrev running : CampaignState
running = record { campaign_id = "c1"; phase = arm_1_running; revision = pos 2 }

abbrev finished : CampaignState
finished = record { campaign_id = "c1"; phase = reported; revision = pos 8 }

running_safe : is_safe_integer running.revision ≡ true
unfolding is_safe_integer
running_safe = refl

finished_safe : is_safe_integer finished.revision ≡ true
unfolding is_safe_integer
finished_safe = refl

running_fits : revision_fits running.phase running.revision ≡ true
unfolding revision_fits
running_fits = refl

read-written_example : read (written running) ≡ ok running
read-written_example = read-written running running_safe

after_all-ended_example : after_all commands (written finished) ≡ written finished
after_all-ended_example = after_all-ended commands finished finished_safe (inl refl)

recover_after_crash-settles_example :
    (t : CampaignState) × (recover_after_crash (written running) ≡ (written t, ok t))
    × (is_settled t.phase ≡ true)
    × (recover_after_crash (written t) ≡ (written t, ok t))
recover_after_crash-settles_example = recover_after_crash-settles running running_fits

abbrev files : Store
files = ("run.json", "one") ∷ []

abbrev collision : Failure
collision = plain_error "Existing path contains different bytes"

write_exclusive_or_verify-ok_iff_example :
    ((after : Store) × (write_exclusive_or_verify "run.json" "two" collision files ≡ ok after))
    ↔ ((lookup "run.json" files ≡ none) ⊎ (lookup "run.json" files ≡ some "two"))
write_exclusive_or_verify-ok_iff_example =
    write_exclusive_or_verify-ok_iff "run.json" "two" collision files

abbrev more_files : Store
more_files = ("report.json", "two") ∷ files

written_report : write_exclusive_or_verify "report.json" "two" collision files ≡ ok more_files
unfolding write_exclusive_or_verify lookup
written_report = refl

found_run : lookup "run.json" files ≡ some "one"
unfolding lookup
found_run = refl

lookup-write_kept_example : lookup "run.json" more_files ≡ some "one"
lookup-write_kept_example =
    lookup-write_kept "report.json" "two" collision files more_files written_report "run.json" "one"
      found_run
