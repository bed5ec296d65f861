-- ===== src/Hub/Memory/ReleaseStatus.antt =====
-- The status of a release as a function of its acknowledgements (`aggregate_release_status`), and
-- the counts that are shown beside it (`summarize_release_counts` of service.rs).
pub mod Laws
use pingora_mesh.Base.{
  ℕ, ◌+◌, String, Bool, true, false, ◌&&◌, ◌||◌, List, [], ◌∷◌, ◌==◌, string_eq, if◌then◌else◌,
}
use pingora_mesh.Base.Map
use pingora_mesh.Base.Map.{Map}
use pingora_mesh.Domain.{Uuid}
use pingora_mesh.Hub.Records.{NodeAckRecord}

-- The loop's three flags.
pub record Flags : Type 0 where
  pub has_in_progress : Bool
  pub has_failed : Bool
  pub all_success : Bool

abbrev pub is_in_progress : String → Bool
is_in_progress status = status == "downloading" || status == "applying"

unfoldable pub flag_ack : String → Flags → Flags
flag_ack status flags =
    if status == "success"
    then flags
    else if status == "failed"
    then record flags { has_failed = true; all_success = false }
    else if is_in_progress status
    then record flags { has_in_progress = true; all_success = false }
    else record flags { all_success = false }

unfoldable pub flag_acks : List NodeAckRecord → Flags → Flags
flag_acks [] flags = flags
flag_acks (ack ∷ acks) flags = flag_acks acks (flag_ack ack.apply_status flags)

abbrev pub no_flags : Flags
no_flags = record { has_in_progress = false; has_failed = false; all_success = true }

unfoldable pub status_of_flags : Flags → String
status_of_flags flags =
    if flags.has_failed
    then "failed"
    else if flags.all_success
    then "success"
    else if flags.has_in_progress
    then "publishing"
    else "pending"

unfoldable pub aggregate_release_status : Map Uuid NodeAckRecord → String
aggregate_release_status ack_status =
    if Map.is_empty ack_status
    then "pending"
    else status_of_flags (flag_acks (Map.values ack_status) no_flags)

pub record ReleaseStatusCounts : Type 0 where
  pub success : ℕ
  pub failed : ℕ
  pub in_progress : ℕ
  pub pending : ℕ

abbrev pub no_counts : ReleaseStatusCounts
no_counts = record { success = 0; failed = 0; in_progress = 0; pending = 0 }

unfoldable pub count_ack : String → ReleaseStatusCounts → ReleaseStatusCounts
count_ack status counts =
    if status == "success"
    then record counts { success = counts.success + 1 }
    else if status == "failed"
    then record counts { failed = counts.failed + 1 }
    else if is_in_progress status
    then record counts { in_progress = counts.in_progress + 1 }
    else record counts { pending = counts.pending + 1 }

unfoldable pub count_acks : List NodeAckRecord → ReleaseStatusCounts → ReleaseStatusCounts
count_acks [] counts = counts
count_acks (ack ∷ acks) counts = count_acks acks (count_ack ack.apply_status counts)

unfoldable pub summarize_release_counts : Map Uuid NodeAckRecord → ReleaseStatusCounts
summarize_release_counts ack_status = count_acks (Map.values ack_status) no_counts
