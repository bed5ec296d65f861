-- ===== src/Lifecycle.antt =====
-- crates/application (`NodeLifecycleService`) and apps/status-worker: how the missed heartbeats of
-- a node decide its status. A database row is a `NodeSnapshot`; the `UPDATE` of a row is its new
-- status. Which statements the database refuses in a run is an argument.
pub mod Laws
use pingora_mesh.Base.{
  ℕ, ◌+◌, ◌-◌, ◌/◌, ◌^◌, min, max, String, Bool, Option, none, some, List, [], ◌∷◌, leb, ◌==◌,
  string_eq, length, Result, ok, err, if◌then◌else◌,
}
use pingora_mesh.Base.Text.{◌<>◌}
use pingora_mesh.Domain.{Uuid, DateTime, NodeStatus, pending, online, suspect, offline, maintenance}

pub record HeartbeatPolicy : Type 0 where
  pub suspect_after_missed : ℕ  -- u32
  pub offline_after_missed : ℕ  -- u32

abbrev pub default_policy : HeartbeatPolicy
default_policy = record { suspect_after_missed = 2; offline_after_missed = 4 }

unfoldable pub evaluate_status : ℕ → HeartbeatPolicy → NodeStatus
evaluate_status missed_heartbeats policy =
    if leb policy.offline_after_missed missed_heartbeats
    then offline
    else if leb policy.suspect_after_missed missed_heartbeats
    then suspect
    else online

abbrev pub nanos : ℕ
nanos = 1_000_000_000

abbrev pub u32_max : ℕ
u32_max = 4294967295

-- A heartbeat from the future counts as no time elapsed: `.max(0)` there, truncated `-` here.
unfoldable pub missed_heartbeats : DateTime → DateTime → ℕ → ℕ
missed_heartbeats now last_seen_at expected_heartbeat_seconds =
    let interval_seconds = max expected_heartbeat_seconds 1 in
    let elapsed_seconds = (now - last_seen_at) / nanos in
    min (elapsed_seconds / interval_seconds) u32_max

pub record NodeSnapshot : Type 0 where
  pub node_id : Uuid
  pub node_code : String
  pub current_status : String
  pub last_seen_at : Option DateTime

unfoldable pub node_status_name : NodeStatus → String
node_status_name pending = "pending"
node_status_name online = "online"
node_status_name suspect = "suspect"
node_status_name offline = "offline"
node_status_name maintenance = "maintenance"

unfoldable pub desired_status_for_snapshot :
    NodeSnapshot → DateTime → ℕ → HeartbeatPolicy → Option NodeStatus
desired_status_for_snapshot snapshot now expected_heartbeat_seconds policy =
    if snapshot.current_status == "maintenance" then none else elim snapshot.last_seen_at [
      | none ↦ none
      | some last_seen_at ↦
          some
            (evaluate_status (missed_heartbeats now last_seen_at expected_heartbeat_seconds) policy)
    ]

pub record ReconcileSummary : Type 0 where
  pub scanned : ℕ
  pub online : ℕ
  pub suspect : ℕ
  pub offline : ℕ
  pub unchanged : ℕ
  pub changed : ℕ
  pub skipped : ℕ

abbrev pub no_summary : ReconcileSummary
no_summary = record {
  scanned = 0;
  online = 0;
  suspect = 0;
  offline = 0;
  unchanged = 0;
  changed = 0;
  skipped = 0;
}

-- The counters by the status that a node should have.
unfoldable pub count_status : NodeStatus → ReconcileSummary → ReconcileSummary
count_status NodeStatus.online s = record s { online = s.online + 1 }
count_status NodeStatus.suspect s = record s { suspect = s.suspect + 1 }
count_status NodeStatus.offline s = record s { offline = s.offline + 1 }
count_status NodeStatus.pending s = s
count_status NodeStatus.maintenance s = s

-- What the database refuses in a run: the `SELECT`, with its error, and the `UPDATE` of some nodes.
pub record RunFaults : Type 0 where
  pub select_error : Option String
  pub update_fails : Uuid → Bool

abbrev pub update_error : NodeSnapshot → String
update_error snapshot = "failed to update node " <> snapshot.node_code

module _ (now : DateTime) (expected_heartbeat_seconds : ℕ) (policy : HeartbeatPolicy) where
  -- One round of the loop: the row as it is afterwards, and the counters, or the error of the
  -- `UPDATE`.
  unfoldable pub reconcile_one :
      (Uuid → Bool)
      → NodeSnapshot
      → ReconcileSummary
      → NodeSnapshot × Result String ReconcileSummary
  unfolding count_status node_status_name
  reconcile_one update_fails snapshot summary =
      elim (desired_status_for_snapshot snapshot now expected_heartbeat_seconds policy) [
        | none ↦ (snapshot, ok (record summary { skipped = summary.skipped + 1 }))
        | some next_status ↦
            let counted = count_status next_status summary in
            if snapshot.current_status == node_status_name next_status
            then (snapshot, ok (record counted { unchanged = counted.unchanged + 1 }))
            else if update_fails snapshot.node_id
            then (snapshot, err (update_error snapshot))
            else (
              record snapshot { current_status = node_status_name next_status },
              ok (record counted { changed = counted.changed + 1 }),
            )
      ]

  -- An error ends the loop: the rows that are left stay as they are.
  unfoldable pub reconcile_rows :
      (Uuid → Bool)
      → List NodeSnapshot
      → ReconcileSummary
      → List NodeSnapshot × Result String ReconcileSummary
  reconcile_rows update_fails [] summary = ([], ok summary)
  reconcile_rows update_fails (row ∷ rows) summary =
      let (row', outcome) = reconcile_one update_fails row summary in
      elim outcome [
        | err e ↦ (row' ∷ rows, err e)
        | ok summary' ↦
            let (rows', outcome') = reconcile_rows update_fails rows summary' in
            (row' ∷ rows', outcome')
      ]

  -- The rows of `nodes` after a run, and what the run returns.
  unfoldable pub reconcile_node_statuses :
      RunFaults → List NodeSnapshot → List NodeSnapshot × Result String ReconcileSummary
  unfolding reconcile_rows reconcile_one
  reconcile_node_statuses faults rows = elim faults.select_error [
    | some e ↦ (rows, err e)
    | none ↦ reconcile_rows faults.update_fails rows (record no_summary { scanned = length rows })
  ]
