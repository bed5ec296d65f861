-- ===== src/Failover/Policy.antt =====
-- When a failover policy fires: `evaluate_policy` of apps/failover-worker/src/main.rs.
pub mod Laws
use pingora_mesh.Base.{
  ℕ, max, String, Bool, true, false, not, ◌&&◌, ◌||◌, Option, none, some, leb, ◌==◌, string_eq,
  if◌then◌else◌,
}
use pingora_mesh.Base.Text.{◌<>◌, decimal}
use pingora_mesh.Json.{Value, get, as_bool, and_then, unwrap_or}
use pingora_mesh.Domain.{DateTime}
use pingora_mesh.Lifecycle.{missed_heartbeats, u32_max}
use pingora_mesh.Failover.Snapshot.{PolicySnapshot}

unfoldable pub policy_bool : Value → String → Bool → Bool
unfolding get
policy_bool value key default_value = unwrap_or (and_then (get key value) as_bool) default_value

-- `matches!(trigger_mode, "semi_auto" | "auto")`
unfoldable pub is_automatic : String → Bool
is_automatic mode = mode == "semi_auto" || mode == "auto"

-- Equality of two `Option<String>`.
abbrev pub same_version : Option String → Option String → Bool
same_version none none = true
same_version (some a) (some b) = a == b
same_version none (some b) = false
same_version (some a) none = false

abbrev pub is_some {ℓ} : {A : Type ℓ} → Option A → Bool
is_some none = false
is_some (some a) = true

-- The standby runs a configuration, and it is the primary's.
unfoldable pub is_prewarmed : Option String → Option String → Bool
is_prewarmed standby primary = is_some standby && same_version standby primary

-- A primary that was never seen has missed every heartbeat.
unfoldable pub primary_missed : PolicySnapshot → DateTime → ℕ → ℕ
primary_missed policy now expected_heartbeat_seconds = elim policy.primary_last_seen_at [
  | none ↦ u32_max
  | some last_seen_at ↦ missed_heartbeats now last_seen_at expected_heartbeat_seconds
]

unfoldable pub degraded_reason : PolicySnapshot → ℕ → String
degraded_reason policy missed =
    "primary node "
    <> policy.primary_node_code
    <> " degraded; status="
    <> policy.primary_status
    <> " missed_heartbeats="
    <> decimal missed

unfoldable pub evaluate_policy : PolicySnapshot → DateTime → ℕ → Option String
evaluate_policy policy now expected_heartbeat_seconds =
    if not (policy.scope_type == "site")
    then none
    else if not (is_automatic policy.trigger_mode)
    then none
    else let require_standby_online =
        policy_bool policy.precheck_policy "require_standby_online" true in
      if require_standby_online && not (policy.standby_status == "online")
      then none
      else let require_config_prewarm =
          policy_bool policy.precheck_policy "require_config_prewarm" false in
        let prewarmed =
          is_prewarmed policy.standby_active_config_version policy.primary_active_config_version in
        if require_config_prewarm && not prewarmed
        then none
        else let missed = primary_missed policy now expected_heartbeat_seconds in
          let failure_threshold = max policy.failure_threshold 1 in
          if policy.primary_status == "offline" || leb failure_threshold missed
          then some (degraded_reason policy missed)
          else none
