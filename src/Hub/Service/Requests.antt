-- ===== src/Hub/Service/Requests.antt =====
-- The requests that the modelled part of the service answers, as one step relation on its state: a
-- request may succeed or be refused, and the state is what it leaves behind.
pub mod Keyed
pub mod Publish
pub mod Sites
pub mod Tokens
pub mod Invariant
use pingora_mesh.Base.{String, Bool, Option, List}
use pingora_mesh.Domain.{Uuid, DateTime}
use pingora_mesh.ConfigCompiler.{CompiledConfigBundle}
use pingora_mesh.Hub.Service.{HubState, Texts}
use pingora_mesh.Hub.Service.Nodes.{remove_node, node_heartbeat, NodeHeartbeatRequest}
use pingora_mesh.Hub.Service.Tokens.{
  Draw, NodeRegisterRequest, NodeRefreshRequest, register_node, refresh_node_token,
}
use pingora_mesh.Hub.Service.Bindings.{SiteBindingItem, bind_site_nodes}
use pingora_mesh.Hub.Service.Publish.{ReleaseDraw, CreateReleaseRequest, create_release}
use pingora_mesh.Hub.Service.Sites.{
  CreateSiteRequest, UpdateSiteRequest, create_site, update_site, update_site_status, remove_site,
}
use pingora_mesh.Hub.Service.Switch.{SwitchSitePrimaryRequest, switch_site_primary}
use pingora_mesh.Hub.Service.Releases.{save_compiled_release, ack_release, ReleaseAckRequest}

module _ (texts : Texts) (sha256_hex : String → String) where
  pub data Request (hub : HubState) : HubState → Type 0 where
    register :
        (draw : Draw) (request : NodeRegisterRequest)
        → Request hub (register_node texts.uuid_text sha256_hex draw request hub).1
    refresh :
        (draw : Draw) (request : NodeRefreshRequest)
        → Request hub (refresh_node_token texts.uuid_text draw request hub).1
    heartbeat :
        (now later : DateTime) (request : NodeHeartbeatRequest)
        → Request hub (node_heartbeat now later request hub).1
    delete : (node_id : Uuid) → Request hub (remove_node node_id hub).1
    bind :
        (site_id : Uuid) (items : List SiteBindingItem)
        → Request hub (bind_site_nodes texts.uuid_text site_id items hub).1
    publish :
        (now : DateTime) (scope_type : String) (scope_id : Option Uuid)
        (release_type reason : String) (bundle : CompiledConfigBundle) (targets : List Uuid)
        → Request hub
            (save_compiled_release now scope_type scope_id release_type reason bundle targets hub).1
    ack :
        (acked_at now : DateTime) (release_id : Uuid) (request : ReleaseAckRequest)
        → Request hub (ack_release acked_at now release_id request hub).1
    create :
        (primary_draw cleanup_draw : ReleaseDraw) (request : CreateReleaseRequest)
        → Request hub (create_release texts primary_draw cleanup_draw request hub).1
    switch :
        (primary_draw cleanup_draw : ReleaseDraw) (site_id : Uuid)
        (request : SwitchSitePrimaryRequest)
        → Request hub (switch_site_primary texts primary_draw cleanup_draw site_id request hub).1
    found :
        (site_id : Uuid) (fresh : String) (request : CreateSiteRequest)
        → Request hub (create_site site_id fresh request hub).1
    update :
        (site_id : Uuid) (request : UpdateSiteRequest)
        → Request hub (update_site site_id request hub).1
    toggle :
        (draw : ReleaseDraw) (site_id : Uuid) (enabled : Bool)
        → Request hub (update_site_status texts draw site_id enabled hub).1
    withdraw :
        (draw : ReleaseDraw) (site_id : Uuid) → Request hub (remove_site texts draw site_id hub).1

  -- Any number of requests, one after the other.
  pub data Reaches (hub : HubState) : HubState → Type 0 where
    start : Reaches hub hub
    next : (middle after : HubState) → Reaches hub middle → Request middle after → Reaches hub after
