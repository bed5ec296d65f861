-- ===== src/Hub/Memory/Releases.antt =====
-- The methods of `MemoryRepository` on releases.
use pingora_mesh.Base.{String, Option, none, some, List, [], ◌∷◌, nat_eq, string_eq}
use pingora_mesh.Base.Map
use pingora_mesh.Base.Map.{Map}
use pingora_mesh.Domain.{Uuid}
use pingora_mesh.Hub.Records.{ReleaseRecord, NodeAckRecord}
use pingora_mesh.Hub.Memory.{MemoryState}
use pingora_mesh.Hub.Memory.ReleaseStatus.{aggregate_release_status}

-- The loop that points every target node to the release.
unfoldable pub point_nodes : List Uuid → Uuid → Map Uuid Uuid → Map Uuid Uuid
point_nodes [] release_id latest = latest
point_nodes (node_id ∷ node_ids) release_id latest =
    point_nodes node_ids release_id (Map.insert node_id release_id latest)

unfoldable pub save_release : ReleaseRecord → MemoryState → MemoryState
save_release release state = record state {
  release_ids_by_version =
      Map.insert release.release_version release.release_id state.release_ids_by_version;
  latest_release_by_node =
      point_nodes release.target_node_ids release.release_id state.latest_release_by_node;
  releases = Map.insert release.release_id release state.releases;
}

unfoldable pub find_release : Uuid → MemoryState → Option ReleaseRecord
find_release release_id state = Map.get release_id state.releases

unfoldable pub release_by_version : String → MemoryState → Option ReleaseRecord
release_by_version version state = elim (Map.get version state.release_ids_by_version) [
  | none ↦ none
  | some release_id ↦ Map.get release_id state.releases
]

unfoldable pub list_releases : MemoryState → List ReleaseRecord
list_releases state = Map.values state.releases

unfoldable pub latest_release_id_for_node : Uuid → MemoryState → Option Uuid
latest_release_id_for_node node_id state = Map.get node_id state.latest_release_by_node

abbrev pub acknowledge : Uuid → NodeAckRecord → ReleaseRecord → ReleaseRecord
acknowledge node_id ack release =
    let acks = Map.insert node_id ack release.ack_status in
    record release { ack_status = acks; status = aggregate_release_status acks }

unfoldable pub update_release_ack : Uuid → Uuid → NodeAckRecord → MemoryState → MemoryState
update_release_ack release_id node_id ack state = elim (Map.get release_id state.releases) [
  | none ↦ state
  | some release ↦ record state {
    releases = Map.insert release_id (acknowledge node_id ack release) state.releases;
  }
]
