-- ===== src/Hub/Service/Nodes.antt =====
-- The requests of service.rs about nodes and their operations. Sha-256 and the text of a `Uuid` are
-- parameters.
pub mod Laws
use pingora_mesh.Base.{
  ℕ, ◌*◌, String, Bool, true, not, ◌||◌, Option, none, some, ◌==◌, nat_eq, string_eq, ltb, is_empty,
  List, [], ◌∷◌, Result, ok, err, ok_or, ◌>>=◌, ◌>>◌, pure, lift, gets, modify, ensure,
  if◌then◌else◌,
}
use pingora_mesh.Base.Int.{ℤ}
use pingora_mesh.Base.Text.{◌<>◌, trim, decimal}
use pingora_mesh.Domain.{Uuid, DateTime, online}
use pingora_mesh.Hub.Records.{
  NodeRecord, HeartbeatRecord, NodeDeleteGuard, ClaimedNodeOperation, NodeOperationRecord,
}
use pingora_mesh.Hub.Memory.Nodes.{
  find_node, node_id_by_code, node_delete_guard, delete_node, record_heartbeat, save_node,
}
use pingora_mesh.Hub.Tokens.{IssuedTokens, revoke_tokens, issue_tokens}
use pingora_mesh.Hub.Service.{AppError, HubState, Handler, in_tokens, write}
use pingora_mesh.Hub.Service.AppError.{bad_request, not_found, conflict, unauthorized}

-- `[String]::join`
unfoldable pub join : String → List String → String
join separator [] = ""
join separator (s ∷ []) = s
join separator (s ∷ t ∷ ts) = s <> separator <> join separator (t ∷ ts)

pub record DeleteNodeResponse : Type 0 where
  pub node_id : Uuid
  pub node_code : String
  pub deleted : Bool

-- `HubService::delete_node`
unfoldable pub remove_node : Uuid → Handler DeleteNodeResponse
remove_node node_id = do
  found ← gets (λ hub. find_node node_id hub.repo)
  node ← lift (ok_or found (not_found "node not found"))
  guard ← gets (λ hub. node_delete_guard node_id hub.repo)
  ensure (is_empty guard.bound_site_codes)
      (conflict ("node is still bound to site(s): " <> join ", " guard.bound_site_codes))
  ensure (not (ltb 0 guard.failover_policy_count)) (
      conflict (
        "node is still referenced by "
        <> decimal guard.failover_policy_count
        <> " failover policy entries"))
  modify (in_tokens (revoke_tokens node_id))
  write (delete_node node_id)
  pure (record { node_id = node_id; node_code = node.identity.node_code; deleted = true })

pub record NodeHeartbeatRequest : Type 0 where
  pub node_id : Uuid
  pub pingora_version : String
  pub agent_version : String
  pub active_config_version : Option String
  pub site_count : ℕ
  pub cpu_usage : ℕ
  pub mem_usage : ℕ
  pub disk_usage : ℕ
  pub health_score : ℕ

pub record NodeHeartbeatResponse : Type 0 where
  pub server_time : DateTime
  pub next_heartbeat_after_seconds : ℕ

-- The row of a heartbeat that is reported at `now`.
abbrev pub heartbeat_row : DateTime → NodeHeartbeatRequest → HeartbeatRecord
heartbeat_row now request = record {
  node_id = request.node_id;
  pingora_version = request.pingora_version;
  agent_version = request.agent_version;
  active_config_version = request.active_config_version;
  site_count = request.site_count;
  cpu_usage = request.cpu_usage;
  mem_usage = request.mem_usage;
  disk_usage = request.disk_usage;
  health_score = request.health_score;
  reported_at = now;
}

unfoldable pub node_heartbeat :
    (now later : DateTime) → NodeHeartbeatRequest → Handler NodeHeartbeatResponse
node_heartbeat now later request = do
  found ← gets (λ hub. find_node request.node_id hub.repo)
  node ← lift (ok_or found (not_found "node not found"))
  write (record_heartbeat (heartbeat_row now request))
  pure (record { server_time = later; next_heartbeat_after_seconds = 15 })
