-- ===== src/Tests/Failover.antt =====
-- The failover worker on a site with a primary and two standbys.
use pingora_mesh.Base.{
  ◌*◌, ◌≡◌, ◌≢◌, ◌↔◌, refl, String, some, none, inl, inr, List, [], ◌∷◌, arith, count_if, IsOrdered,
  keep_if, min_by, least_from, nat_eq,
}
use pingora_mesh.Base.Int.{pos}
use pingora_mesh.Base.Text.{eq_ignore_ascii_case}
use pingora_mesh.Json.{object, end, get}
use pingora_mesh.Domain.{Uuid}
use pingora_mesh.Lifecycle.{nanos, default_policy, missed_heartbeats, evaluate_status}
use pingora_mesh.Failover.Snapshot.{PolicySnapshot, SiteBindingSnapshot}
use pingora_mesh.Failover.Bindings.{
  is_primary, is_node, build_switched_bindings, current_primary_node_id, select_next_policy_standby,
  standby_status_rank,
}
use pingora_mesh.Failover.Bindings.Nodes.{node-build_switched_bindings}
use pingora_mesh.Failover.Bindings.Switched.{
  Precedes, current_primary-build_switched_bindings, sorted-build_switched_bindings,
}
use pingora_mesh.Failover.Bindings.Standby.{
  Chosen, select_next_policy_standby-Chosen, next_standby_after_switch,
}
use pingora_mesh.Failover.Policy.{evaluate_policy, policy_bool, degraded_reason, primary_missed}
use pingora_mesh.Failover.Policy.Laws.{
  Prechecks, Degraded, evaluate_policy_iff, evaluate_policy-stays, offline_status_fires,
}

abbrev text : Uuid → String
text id = "node"

abbrev main : SiteBindingSnapshot
main = record {
  node_id = 1;
  node_code = "edge-1";
  node_status = "offline";
  binding_role = "primary";
  priority = pos 10;
}

abbrev spare : SiteBindingSnapshot
spare = record main {
  node_id = 2;
  node_code = "edge-2";
  node_status = "online";
  binding_role = "standby";
  priority = pos 20;
}

abbrev third : SiteBindingSnapshot
third = record spare { node_id = 3; node_code = "edge-3"; priority = pos 30 }

abbrev site : List SiteBindingSnapshot
site = main ∷ spare ∷ third ∷ []

current_primary-build_switched_bindings_example :
    (count_if is_primary (build_switched_bindings text site 1 2) ≡ 1)
    × (current_primary_node_id (build_switched_bindings text site 1 2) ≡ some 2)
current_primary-build_switched_bindings_example =
    current_primary-build_switched_bindings text site 1 2 refl

sorted-build_switched_bindings_example : IsOrdered Precedes (build_switched_bindings text site 1 2)
sorted-build_switched_bindings_example = sorted-build_switched_bindings text site 1 2

node-build_switched_bindings_example :
    count_if (is_node 3) (build_switched_bindings text site 1 2) ≡ 1
node-build_switched_bindings_example =
    node-build_switched_bindings text site 1 2 3 (λ e. omega arith)

select_next_policy_standby-Chosen_example : Chosen site 1 2
unfolding select_next_policy_standby keep_if min_by least_from standby_status_rank
    eq_ignore_ascii_case
select_next_policy_standby-Chosen_example = select_next_policy_standby-Chosen site 1 2 refl

next_standby_after_switch_example :
    (id : Uuid) × (select_next_policy_standby (build_switched_bindings text site 1 2) 2 ≡ some id)
    × (id ≢ 2)
next_standby_after_switch_example = next_standby_after_switch text site 1 2 (λ e. omega arith)

abbrev policy : PolicySnapshot
policy = record {
  policy_id = 9;
  scope_type = "site";
  scope_id = 7;
  primary_node_id = 1;
  standby_node_id = 2;
  trigger_mode = "auto";
  failure_threshold = 3;
  precheck_policy = object end;
  primary_node_code = "edge-1";
  standby_node_code = "edge-2";
  primary_status = "suspect";
  standby_status = "online";
  standby_public_ip = none;
  primary_last_seen_at = some 0;
  primary_active_config_version = none;
  standby_active_config_version = none;
}

evaluate_policy_iff_example :
    (evaluate_policy policy (60 * nanos) 15
      ≡ some (degraded_reason policy (primary_missed policy (60 * nanos) 15)))
    ↔ (Prechecks policy × Degraded policy (60 * nanos) 15)
evaluate_policy_iff_example = evaluate_policy_iff policy (60 * nanos) 15

policy-Prechecks : Prechecks policy
unfolding policy_bool get
policy-Prechecks = record {
  site_scope = refl;
  automatic = inr refl;
  standby_online = inr refl;
  prewarmed = inl refl;
}

policy_fires :
    evaluate_policy policy (60 * nanos) 15
    ≡ some (degraded_reason policy (primary_missed policy (60 * nanos) 15))
unfolding primary_missed missed_heartbeats
policy_fires = (evaluate_policy_iff policy (60 * nanos) 15).1 (policy-Prechecks, inr (omega arith))

evaluate_policy-stays_example :
    evaluate_policy policy (75 * nanos) 15
    ≡ some (degraded_reason policy (primary_missed policy (75 * nanos) 15))
evaluate_policy-stays_example =
    evaluate_policy-stays policy (60 * nanos) (75 * nanos) 15
      (degraded_reason policy (primary_missed policy (60 * nanos) 15)) (omega arith) policy_fires

offline_status_fires_example :
    evaluate_policy policy (60 * nanos) 15
    ≡ some (degraded_reason policy (missed_heartbeats (60 * nanos) 0 15))
unfolding evaluate_status missed_heartbeats
offline_status_fires_example =
    offline_status_fires policy default_policy (60 * nanos) 0 15 policy-Prechecks refl refl
      (omega arith)
