-- ===== src/Hub/Service/Requests/Invariant.antt =====
-- What every request keeps: the tokens are the current ones of their nodes, the nodes are stored
-- under their own ids, and the releases are in order.
use pingora_mesh.Base.{
  ◌≡◌, String, Option, List, arith, inl, inr, Option-cases, Result-cases, nat_eq, Bool-cases,
  contains, is_empty,
}
use pingora_mesh.Domain.{Uuid, DateTime}
use pingora_mesh.ConfigCompiler.{CompiledConfigBundle}
use pingora_mesh.Hub.Memory.Nodes.{find_node, node_delete_guard}
use pingora_mesh.Hub.Memory.Releases.{find_release, save_release}
use pingora_mesh.Hub.Memory.Sites.{find_site, save_site}
use pingora_mesh.Hub.Tokens.{revoke_tokens}
use pingora_mesh.Hub.Tokens.Laws.{revoke_tokens-IsTokenState}
use pingora_mesh.Hub.Service.{HubState, Texts}
use pingora_mesh.Hub.Service.Nodes.{
  remove_node, node_heartbeat, heartbeat_row, NodeHeartbeatRequest,
}
use pingora_mesh.Hub.Service.Bindings.{
  SiteBindingItem, normalize_site_bindings, check_nodes, bind_site_nodes,
}
use pingora_mesh.Hub.Service.Releases.{
  save_compiled_release, ack_of, ack_release, ReleaseAckRequest,
}
use pingora_mesh.Hub.Service.Releases.Laws.{
  save_release-AreReleases, delete_node-AreReleases, ack_release-AreReleases,
  compiled_release-IsRelease,
}
use pingora_mesh.Hub.Service.Requests.{Request, Reaches}
use pingora_mesh.Hub.Service.Requests.Request.{
  register, refresh, heartbeat, delete, bind, publish, ack, create, switch, found, update, toggle,
  withdraw,
}
use pingora_mesh.Hub.Service.Requests.Reaches.{start, next}
use pingora_mesh.Hub.Service.Requests.Keyed.{
  IsHub, delete_node-AreKeyed, record_heartbeat-AreKeyed, check_nodes-state,
  record_heartbeat-releases, save_version-AreKeyed, update_release_ack-AreKeyed,
}
use pingora_mesh.Hub.Service.Requests.Publish.{create_release-IsHub, switch_site_primary-IsHub}
use pingora_mesh.Hub.Service.Requests.Sites.{
  create_site-IsHub, update_site-IsHub, update_site_status-IsHub, remove_site-IsHub,
}
use pingora_mesh.Hub.Service.Requests.Tokens.{register_node-IsHub, refresh_node_token-IsHub}

module _ (uuid_text : Uuid → String) (hub : HubState) (h : IsHub hub) where
  node_heartbeat-IsHub :
      (now later : DateTime) (request : NodeHeartbeatRequest)
      → IsHub (node_heartbeat now later request hub).1
  unfolding node_heartbeat
  node_heartbeat-IsHub now later request =
      elim (Option-cases (find_node request.node_id hub.repo)) [
        | inl e ↦ rw (e, node_heartbeat) h
        | inr (node, e) ↦
            rw (e, node_heartbeat)
              (record {
                tokens = h.tokens;
                nodes = record_heartbeat-AreKeyed (heartbeat_row now request) hub.repo h.nodes;
                releases =
                    rw (record_heartbeat-releases (heartbeat_row now request) hub.repo) h.releases;
              })
      ]

  remove_node-IsHub : (node_id : Uuid) → IsHub (remove_node node_id hub).1
  unfolding remove_node node_delete_guard revoke_tokens
  remove_node-IsHub node_id = elim (Option-cases (find_node node_id hub.repo)) [
    | inl e ↦ rw (e, remove_node) h
    | inr (node, e) ↦
        elim (Bool-cases (is_empty (node_delete_guard node_id hub.repo).bound_site_codes)) [
          | inl free ↦
              rw (e, free, remove_node)
                (record {
                  tokens = (revoke_tokens-IsTokenState node_id hub.tokens h.tokens).0;
                  nodes = delete_node-AreKeyed node_id hub.repo h.nodes;
                  releases = delete_node-AreReleases node_id hub.repo h.releases;
                })
          | inr bound ↦ rw (e, bound, remove_node) h
        ]
  ]

  bind_site_nodes-IsHub :
      (site_id : Uuid) (items : List SiteBindingItem)
      → IsHub (bind_site_nodes uuid_text site_id items hub).1
  unfolding bind_site_nodes save_site find_node
  bind_site_nodes-IsHub site_id items =
      elim (Result-cases (normalize_site_bindings uuid_text items)) [
        | inl (e, refused) ↦ rw (refused, bind_site_nodes) h
        | inr (bs, done) ↦ elim (Result-cases (check_nodes uuid_text bs hub).0) [
          | inl (e, missing) ↦
              rw (done, missing, check_nodes-state uuid_text bs hub, bind_site_nodes) h
          | inr (_, there) ↦ elim (Option-cases (find_site site_id hub.repo)) [
            | inl e ↦ rw (done, there, check_nodes-state uuid_text bs hub, e, bind_site_nodes) h
            | inr (site, e) ↦
                rw (done, there, check_nodes-state uuid_text bs hub, e, bind_site_nodes)
                  (record { tokens = h.tokens; nodes = h.nodes; releases = h.releases })
          ]
        ]
      ]

  save_compiled_release-IsHub :
      (now : DateTime) (scope_type : String) (scope_id : Option Uuid) (release_type reason : String)
      (bundle : CompiledConfigBundle) (targets : List Uuid)
      → IsHub
          (save_compiled_release now scope_type scope_id release_type reason bundle targets hub).1
  unfolding save_compiled_release save_release find_node
  save_compiled_release-IsHub now scope_type scope_id release_type reason bundle targets = record {
    tokens = h.tokens;
    nodes = h.nodes;
    releases =
        save_release-AreReleases _ hub.repo
          (compiled_release-IsRelease now scope_type scope_id release_type reason bundle targets)
          h.releases;
  }

  ack_release-tokens :
      (acked_at now : DateTime) (release_id : Uuid) (request : ReleaseAckRequest)
      → (ack_release acked_at now release_id request hub).1.tokens ≡ hub.tokens
  unfolding ack_release
  ack_release-tokens acked_at now release_id request = ground arith

  ack_release-IsHub :
      (acked_at now : DateTime) (release_id : Uuid) (request : ReleaseAckRequest)
      → IsHub (ack_release acked_at now release_id request hub).1
  unfolding ack_release
  ack_release-IsHub acked_at now release_id request = record {
    tokens = rw (ack_release-tokens acked_at now release_id request) h.tokens;
    nodes = elim (Option-cases (find_release release_id hub.repo)) [
      | inl e ↦ rw (e, ack_release) h.nodes
      | inr (release, e) ↦ elim (Bool-cases (contains request.node_id release.target_node_ids)) [
        | inl target ↦
            rw (e, target, ack_release)
              (save_version-AreKeyed now request.current_version _ _ (
                update_release_ack-AreKeyed release_id request.node_id (ack_of acked_at request)
                  hub.repo h.nodes))
        | inr away ↦ rw (e, away, ack_release) h.nodes
      ]
    ];
    releases = ack_release-AreReleases acked_at now release_id request hub h.releases;
  }

-- Whatever requests the service answers, in whatever order and with whatever result, the tokens stay
-- the current ones of their nodes, the nodes stay under their own ids, and every stored release has
-- the status that sums up its acknowledgements and an acknowledgement for exactly its targets.
pub Request-IsHub :
    (texts : Texts) (sha256_hex : String → String) (hub after : HubState)
    → Request texts sha256_hex hub after
    → IsHub hub
    → IsHub after
Request-IsHub texts sha256_hex hub _ (register draw request) h =
    register_node-IsHub texts.uuid_text sha256_hex hub h draw request
Request-IsHub texts sha256_hex hub _ (refresh draw request) h =
    refresh_node_token-IsHub texts.uuid_text hub h draw request
Request-IsHub texts sha256_hex hub _ (heartbeat now later request) h =
    node_heartbeat-IsHub texts.uuid_text hub h now later request
Request-IsHub texts sha256_hex hub _ (delete node_id) h =
    remove_node-IsHub texts.uuid_text hub h node_id
Request-IsHub texts sha256_hex hub _ (bind site_id items) h =
    bind_site_nodes-IsHub texts.uuid_text hub h site_id items
Request-IsHub texts sha256_hex hub _
      (publish now scope_type scope_id release_type reason bundle targets) h =
    save_compiled_release-IsHub texts.uuid_text hub h now scope_type scope_id release_type reason
      bundle targets
Request-IsHub texts sha256_hex hub _ (ack acked_at now release_id request) h =
    ack_release-IsHub texts.uuid_text hub h acked_at now release_id request
Request-IsHub texts sha256_hex hub _ (create primary_draw cleanup_draw request) h =
    create_release-IsHub texts primary_draw cleanup_draw request hub h
Request-IsHub texts sha256_hex hub _ (switch primary_draw cleanup_draw site_id request) h =
    switch_site_primary-IsHub texts primary_draw cleanup_draw site_id request hub h
Request-IsHub texts sha256_hex hub _ (found site_id fresh request) h =
    create_site-IsHub site_id fresh request hub h
Request-IsHub texts sha256_hex hub _ (update site_id request) h =
    update_site-IsHub site_id request hub h
Request-IsHub texts sha256_hex hub _ (toggle draw site_id enabled) h =
    update_site_status-IsHub texts draw site_id enabled hub h
Request-IsHub texts sha256_hex hub _ (withdraw draw site_id) h =
    remove_site-IsHub texts draw site_id hub h

-- From a state that is in order, any sequence of registrations, refreshes, heartbeats, deletions
-- and bindings of nodes, new releases, switches of a primary node, creations, changes, toggles and
-- deletions of sites, and acknowledgements, each with whatever result, leaves a state in order: every token is the current one of its node, every node is stored under its own
-- id, and every release has the status that sums up its acknowledgements and one acknowledgement
-- for exactly its targets.
pub Reaches-IsHub :
    (texts : Texts) (sha256_hex : String → String) (hub after : HubState)
    → Reaches texts sha256_hex hub after
    → IsHub hub
    → IsHub after
Reaches-IsHub texts sha256_hex hub _ start h = h
Reaches-IsHub texts sha256_hex hub after (next middle _ before request) h =
    Request-IsHub texts sha256_hex middle after request
      (Reaches-IsHub texts sha256_hex hub middle before h)
