-- ===== src/Hub/Service/Requests/Keyed.antt =====
-- The writes that keep every node under its own id, and what they leave alone.
use pingora_mesh.Base.{
  ◌≡◌, refl, String, Option, none, some, List, [], ◌∷◌, arith, inl, inr, Option-cases, nat_eq,
  nat_beq_iff,
}
use pingora_mesh.Base.Map
use pingora_mesh.Base.Map.{get-insert, get-remove}
use pingora_mesh.Domain.{Uuid, DateTime}
use pingora_mesh.Hub.Records.{NodeRecord, NodeAckRecord, HeartbeatRecord, SiteBindingRecord}
use pingora_mesh.Hub.Memory.{MemoryState}
use pingora_mesh.Hub.Memory.Nodes.{find_node, save_node, delete_node, record_heartbeat, beat}
use pingora_mesh.Hub.Memory.Releases.{update_release_ack}
use pingora_mesh.Hub.Tokens.Laws.{IsTokenState}
use pingora_mesh.Hub.Service.{HubState}
use pingora_mesh.Hub.Service.Tokens.Laws.{AreKeyed}
use pingora_mesh.Hub.Service.Bindings.{check_nodes}
use pingora_mesh.Hub.Service.Releases.{save_version, runs}
use pingora_mesh.Hub.Service.Releases.Laws.{AreReleases}

pub record IsHub (hub : HubState) : Type 0 where
  pub tokens : IsTokenState hub.tokens
  pub nodes : AreKeyed hub.repo
  pub releases : AreReleases hub.repo

pub save_node-AreKeyed :
    (node : NodeRecord) (repo : MemoryState) → AreKeyed repo → AreKeyed (save_node node repo)
unfolding save_node find_node
save_node-AreKeyed node repo h id other found = ground (
  arith,
  get-insert node.identity.id id node repo.nodes,
  nat_beq_iff node.identity.id id,
  h id other,
)

pub delete_node-AreKeyed :
    (node : Uuid) (repo : MemoryState) → AreKeyed repo → AreKeyed (delete_node node repo)
unfolding delete_node find_node
delete_node-AreKeyed node repo h id other found =
    ground (arith, get-remove node id repo.nodes, h id other)

pub record_heartbeat-AreKeyed :
    (row : HeartbeatRecord) (repo : MemoryState)
    → AreKeyed repo
    → AreKeyed (record_heartbeat row repo)
unfolding record_heartbeat find_node
record_heartbeat-AreKeyed row repo h id other found =
    elim (Option-cases (Map.get row.node_id repo.nodes)) [
      | inl e ↦ h id other (rw (e, record_heartbeat) at found)
      | inr (node, e) ↦ ground (
        arith,
        h row.node_id node,
        h id other,
        get-insert row.node_id id (beat row node) repo.nodes,
        nat_beq_iff row.node_id id,
      )
    ]

pub check_nodes-state :
    (uuid_text : Uuid → String) (bindings : List SiteBindingRecord) (hub : HubState)
    → (check_nodes uuid_text bindings hub).1 ≡ hub
unfolding check_nodes
check_nodes-state uuid_text [] hub = refl
check_nodes-state uuid_text (b ∷ bs) hub = elim (Option-cases (find_node b.node_id hub.repo)) [
  | inl e ↦ rw e refl
  | inr (node, e) ↦ rw e (check_nodes-state uuid_text bs hub)
]

pub record_heartbeat-releases :
    (row : HeartbeatRecord) (repo : MemoryState)
    → (record_heartbeat row repo).releases ≡ repo.releases
unfolding record_heartbeat
record_heartbeat-releases row repo = elim (Option-cases (Map.get row.node_id repo.nodes)) [
  | inl e ↦ rw (e, record_heartbeat) refl
  | inr (node, e) ↦ rw (e, record_heartbeat) refl
]

pub save_version-AreKeyed :
    (now : DateTime) (version : String) (node : Option NodeRecord) (repo : MemoryState)
    → AreKeyed repo
    → AreKeyed (save_version now version node repo)
save_version-AreKeyed now version none repo keyed = keyed
save_version-AreKeyed now version (some node) repo keyed =
    save_node-AreKeyed (runs now version node) repo keyed

update_release_ack-nodes :
    (release_id n : Uuid) (ack : NodeAckRecord) (repo : MemoryState)
    → (update_release_ack release_id n ack repo).nodes ≡ repo.nodes
unfolding update_release_ack
update_release_ack-nodes release_id n ack repo =
    elim (Option-cases (Map.get release_id repo.releases)) [
      | inl e ↦ rw (e, update_release_ack) refl
      | inr (release, e) ↦ rw (e, update_release_ack) refl
    ]

pub update_release_ack-AreKeyed :
    (release_id n : Uuid) (ack : NodeAckRecord) (repo : MemoryState)
    → AreKeyed repo
    → AreKeyed (update_release_ack release_id n ack repo)
unfolding find_node
update_release_ack-AreKeyed release_id n ack repo keyed =
    rw (update_release_ack-nodes release_id n ack repo) keyed
