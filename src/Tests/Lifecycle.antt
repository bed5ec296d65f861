-- ===== src/Tests/Lifecycle.antt =====
-- The status worker on a node that has been silent for a minute.
use pingora_mesh.Base.{
  ◌+◌, ◌*◌, ◌-◌, ◌≤◌, max, ◌≡◌, ◌↔◌, some, [], ◌∷◌, arith, none, List, ok, refl, ◌==◌, nat_eq,
}
use pingora_mesh.Lifecycle.{
  nanos, default_policy, missed_heartbeats, evaluate_status, NodeSnapshot, RunFaults,
  ReconcileSummary, reconcile_node_statuses, reconcile_rows, reconcile_one,
  desired_status_for_snapshot, node_status_name, count_status,
}
use pingora_mesh.Lifecycle.Laws.{
  missed_heartbeats_exact, silence_degrades, reconcile_accounts, reconcile_settles, severity,
  RunEnds, reconcile_node_statuses_twice,
}

abbrev silent : NodeSnapshot
silent = record {
  node_id = 1;
  node_code = "edge-1";
  current_status = "online";
  last_seen_at = some 0;
}

abbrev resting : NodeSnapshot
resting = record silent { node_id = 2; current_status = "maintenance" }

missed_heartbeats_exact_example :
    (4 ≤ missed_heartbeats (60 * nanos) 0 15) ↔ (4 * max 15 1 * nanos ≤ 60 * nanos - 0)
missed_heartbeats_exact_example = missed_heartbeats_exact (60 * nanos) 0 15 4 (omega arith)

silence_degrades_example :
    severity (evaluate_status (missed_heartbeats (30 * nanos) 0 15) default_policy)
    ≤ severity (evaluate_status (missed_heartbeats (60 * nanos) 0 15) default_policy)
silence_degrades_example =
    silence_degrades (30 * nanos) (60 * nanos) 0 15 default_policy (omega arith)

-- The database refuses the update of the node 3.
abbrev faults : RunFaults
faults = record { select_error = none; update_fails = λ id. id == 3 }

abbrev rows : List NodeSnapshot
rows = silent ∷ resting ∷ []

abbrev done : ReconcileSummary
done = record {
  scanned = 2;
  online = 0;
  suspect = 0;
  offline = 1;
  unchanged = 0;
  changed = 1;
  skipped = 1;
}

run_done : (reconcile_node_statuses (60 * nanos) 15 default_policy faults rows).1 ≡ ok done
unfolding reconcile_node_statuses reconcile_rows reconcile_one desired_status_for_snapshot
    evaluate_status missed_heartbeats node_status_name count_status
run_done = refl

reconcile_accounts_example :
    (done.scanned ≡ 2)
    × (done.unchanged + done.changed + done.skipped ≡ 2)
    × (done.online + done.suspect + done.offline ≡ done.unchanged + done.changed)
reconcile_accounts_example =
    reconcile_accounts (60 * nanos) 15 default_policy faults rows done run_done

reconcile_settles_example :
    RunEnds
      (60 * nanos)
      15
      default_policy
      faults.update_fails
      rows
      (reconcile_node_statuses (60 * nanos) 15 default_policy faults rows)
reconcile_settles_example = reconcile_settles (60 * nanos) 15 default_policy faults rows refl

nothing_left :
    let rows' = (reconcile_node_statuses (60 * nanos) 15 default_policy faults rows).0 in
    (t : ReconcileSummary) × (reconcile_node_statuses (60 * nanos) 15 default_policy faults rows'
      ≡ (rows', ok t))
nothing_left =
    reconcile_node_statuses_twice (60 * nanos) 15 default_policy faults faults rows done refl
      run_done
