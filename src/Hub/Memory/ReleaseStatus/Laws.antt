-- ===== src/Hub/Memory/ReleaseStatus/Laws.antt =====
-- The status of a release against the counts of its acknowledgements.
use pingora_mesh.Base.{
  ◌+◌, ◌≡◌, refl, String, List, [], ◌∷◌, arith, string_eq, if◌then◌else◌, ltb, nat_beq, length,
}
use pingora_mesh.Base.Map
use pingora_mesh.Base.Map.{Map}
use pingora_mesh.Domain.{Uuid}
use pingora_mesh.Hub.Records.{NodeAckRecord}
use pingora_mesh.Hub.Memory.ReleaseStatus.{
  Flags, flag_ack, flag_acks, no_flags, status_of_flags, aggregate_release_status,
  ReleaseStatusCounts, count_ack, count_acks, no_counts, summarize_release_counts,
}

-- The flags say which counts are not zero.
pub record Agree (f : Flags) (c : ReleaseStatusCounts) : Type 0 where
  pub failed : f.has_failed ≡ ltb 0 c.failed
  pub in_progress : f.has_in_progress ≡ ltb 0 c.in_progress
  pub success : f.all_success ≡ nat_beq (c.failed + c.in_progress + c.pending) 0

ack-Agree :
    (status : String) (f : Flags) (c : ReleaseStatusCounts)
    → Agree f c
    → Agree (flag_ack status f) (count_ack status c)
unfolding flag_ack count_ack
ack-Agree status f c h = ground arith

acks-Agree :
    (acks : List NodeAckRecord) (f : Flags) (c : ReleaseStatusCounts)
    → Agree f c
    → Agree (flag_acks acks f) (count_acks acks c)
unfolding flag_acks count_acks
acks-Agree [] f c h = h
acks-Agree (ack ∷ acks) f c h = acks-Agree acks _ _ (ack-Agree ack.apply_status f c h)

-- The status that the counts call for: failed as soon as one node failed, success when all did,
-- publishing while one is at work, and pending otherwise, as without any node.
abbrev pub status_of_counts : ReleaseStatusCounts → String
status_of_counts c =
    if ltb 0 c.failed
    then "failed"
    else if ltb 0 c.in_progress
    then "publishing"
    else if ltb 0 c.pending
    then "pending"
    else if ltb 0 c.success
    then "success"
    else "pending"

total-count_acks :
    (acks : List NodeAckRecord) (c : ReleaseStatusCounts)
    → let d = count_acks acks c in
      d.success + d.failed + d.in_progress + d.pending
      ≡ c.success + c.failed + c.in_progress + c.pending + length acks
unfolding count_acks count_ack
total-count_acks [] c = omega arith
total-count_acks (ack ∷ acks) c =
    ground (arith, total-count_acks acks (count_ack ack.apply_status c))

status_of_acks :
    (ack : NodeAckRecord) (acks : List NodeAckRecord)
    → status_of_flags (flag_acks (ack ∷ acks) no_flags)
      ≡ status_of_counts (count_acks (ack ∷ acks) no_counts)
unfolding status_of_flags
status_of_acks ack acks = ground (
  arith,
  acks-Agree (ack ∷ acks) no_flags no_counts (ground arith),
  total-count_acks (ack ∷ acks) no_counts,
)

-- The status that is stored beside a release and the counts that are shown for it come from two
-- loops over the same acknowledgements; the counts determine the status, and they add up to the
-- number of acknowledgements.
pub aggregate-summarize :
    (acks : Map Uuid NodeAckRecord)
    → (aggregate_release_status acks ≡ status_of_counts (summarize_release_counts acks))
      × (let c = summarize_release_counts acks in
          c.success + c.failed + c.in_progress + c.pending ≡ length (Map.values acks))
unfolding aggregate_release_status summarize_release_counts Map.values
aggregate-summarize [] = (unfold count_acks in refl, total-count_acks [] no_counts)
aggregate-summarize ((id, ack) ∷ acks) = (
  status_of_acks ack (Map.values acks),
  omega (arith, total-count_acks (ack ∷ Map.values acks) no_counts),
)
