-- ===== src/Hub/Memory/Nodes.antt =====
-- The methods of `MemoryRepository` on nodes.
use pingora_mesh.Base.{
  String, Bool, not, Option, none, some, map, any, keep_if, sort_by, dedup, ◌==◌, nat_eq, string_eq,
}
use pingora_mesh.Base.Order.{le_of, cmp_str}
use pingora_mesh.Base.Map
use pingora_mesh.Domain.{Uuid, NodeStatus, maintenance, online}
use pingora_mesh.Hub.Records.{
  NodeRecord, HeartbeatRecord, SiteRecord, SiteBindingRecord, ReleaseRecord, NodeDeleteGuard,
}
use pingora_mesh.Hub.Memory.{MemoryState}
use pingora_mesh.Hub.Memory.ReleaseStatus.{aggregate_release_status}

unfoldable pub save_node : NodeRecord → MemoryState → MemoryState
save_node node state = record state {
  node_ids_by_code = Map.insert node.identity.node_code node.identity.id state.node_ids_by_code;
  nodes = Map.insert node.identity.id node state.nodes;
}

unfoldable pub find_node : Uuid → MemoryState → Option NodeRecord
find_node node_id state = Map.get node_id state.nodes

unfoldable pub node_id_by_code : String → MemoryState → Option Uuid
node_id_by_code node_code state = Map.get node_code state.node_ids_by_code

abbrev pub is_bound : Uuid → SiteRecord → Bool
is_bound node_id site = any (λ (b : SiteBindingRecord). b.node_id == node_id) site.bindings

unfoldable pub node_delete_guard : Uuid → MemoryState → NodeDeleteGuard
node_delete_guard node_id state = record {
  bound_site_codes = dedup (
      sort_by (le_of cmp_str) (
        map (λ (site : SiteRecord). site.site_code)
          (keep_if (is_bound node_id) (Map.values state.sites))));
  failover_policy_count = 0;
}

abbrev pub unbind : Uuid → SiteRecord → SiteRecord
unbind node_id site = record site {
  bindings = keep_if (λ b. not (b.node_id == node_id)) site.bindings;
}

abbrev pub drop_target : Uuid → ReleaseRecord → ReleaseRecord
drop_target node_id release =
    let acks = Map.remove node_id release.ack_status in
    record release {
      target_node_ids = keep_if (λ id. not (id == node_id)) release.target_node_ids;
      ack_status = acks;
      status = aggregate_release_status acks;
    }

unfoldable pub delete_node : Uuid → MemoryState → MemoryState
delete_node node_id state = elim (Map.get node_id state.nodes) [
  | none ↦ state
  | some node ↦ record state {
    nodes = Map.remove node_id state.nodes;
    node_ids_by_code = Map.remove node.identity.node_code state.node_ids_by_code;
    latest_release_by_node = Map.remove node_id state.latest_release_by_node;
    sites = Map.map_values (unbind node_id) state.sites;
    releases = Map.map_values (drop_target node_id) state.releases;
  }
]

-- A node in maintenance stays there, any other is online.
unfoldable pub status_on_heartbeat : NodeStatus → NodeStatus
status_on_heartbeat NodeStatus.maintenance = maintenance
status_on_heartbeat _ = online

abbrev pub beat : HeartbeatRecord → NodeRecord → NodeRecord
beat heartbeat node = record node {
  identity = record node.identity { status = status_on_heartbeat node.identity.status };
  pingora_version = some heartbeat.pingora_version;
  agent_version = some heartbeat.agent_version;
  runtime = record {
    active_config_version = heartbeat.active_config_version;
    site_count = heartbeat.site_count;
    health_score = heartbeat.health_score;
    last_seen_at = some heartbeat.reported_at;
  };
}

unfoldable pub record_heartbeat : HeartbeatRecord → MemoryState → MemoryState
record_heartbeat heartbeat state = elim (Map.get heartbeat.node_id state.nodes) [
  | none ↦ state
  | some node ↦ record state {
    nodes = Map.insert heartbeat.node_id (beat heartbeat node) state.nodes;
  }
]
