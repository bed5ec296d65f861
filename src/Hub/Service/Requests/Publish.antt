-- ===== src/Hub/Service/Requests/Publish.antt =====
-- A release made for a site, and a switch of its primary node, keep what every request keeps.
use pingora_mesh.Base.{
  Bool, true, not, ◌&&◌, Option, none, some, Result, ok, ok_or, is_empty, ◌==◌, string_eq, nat_eq,
  Preorder, Keeps, lift-Keeps, gets-Keeps, bind-Keeps, lift, gets, ensure, ◌>>=◌,
}
use pingora_mesh.Domain.{Uuid}
use pingora_mesh.Json.{unwrap_or}
use pingora_mesh.SiteConfig.{or_else}
use pingora_mesh.Hub.Records.{SiteRecord}
use pingora_mesh.Hub.Memory.Nodes.{find_node}
use pingora_mesh.Hub.Memory.Sites.{find_site, save_site, update_active_failover_policy_targets}
use pingora_mesh.Hub.Service.{AppError, HubState, Handler, Texts, write}
use pingora_mesh.Hub.Service.AppError.{bad_request, not_found, conflict, internal}
use pingora_mesh.Hub.Service.Releases.{detached_node_ids_for_site}
use pingora_mesh.Hub.Service.Publish.{
  ReleaseDraw, CreateReleaseRequest, bound_nodes, released_status, create_release,
}
use pingora_mesh.Hub.Service.Publish.Laws.{
  OnlyReleases, primary_release-Keeps, cleanup_release-Keeps,
}
use pingora_mesh.Hub.Service.Switch.{
  SwitchSitePrimaryRequest, is_current, switch_target, switched_site, switch_release,
  switch_response, follow_policies, switch_site_primary,
}
use pingora_mesh.Hub.Service.Bindings.{switch_from, select_next_failover_policy_standby}
use pingora_mesh.Hub.Service.Requests.Keyed.{IsHub}

abbrev pub StaysHub : HubState → HubState → Type 0
StaysHub hub after = IsHub hub → IsHub after

StaysHub-order : Preorder StaysHub
StaysHub-order = record { same = λ hub h. h; after = λ hub middle after h k r. k (h r) }

OnlyReleases-StaysHub : (hub after : HubState) → OnlyReleases hub after → StaysHub hub after
unfolding find_node
OnlyReleases-StaysHub hub after h k = record {
  tokens = rw (h.tokens) k.tokens;
  nodes = rw (h.nodes) k.nodes;
  releases = h.releases k.releases;
}

pub write_site-Keeps : (site : SiteRecord) → Keeps StaysHub (write (save_site site))
unfolding Keeps save_site find_node
write_site-Keeps site hub h = record { tokens = h.tokens; nodes = h.nodes; releases = h.releases }

pub only-Keeps : {A : Type 0} (m : Handler A) → Keeps OnlyReleases m → Keeps StaysHub m
unfolding Keeps
only-Keeps m h hub = OnlyReleases-StaysHub hub (m hub).1 (h hub)

pub lift-StaysHub : {A : Type 0} (r : Result AppError A) → Keeps StaysHub (lift r)
lift-StaysHub r = lift-Keeps StaysHub StaysHub-order r

pub ensure-StaysHub : (b : Bool) (e : AppError) → Keeps StaysHub (ensure b e)
ensure-StaysHub b e = lift-StaysHub _

pub gets-StaysHub : {A : Type 0} (f : HubState → A) → Keeps StaysHub (gets {E = AppError} f)
gets-StaysHub f = gets-Keeps StaysHub StaysHub-order AppError f

pub bind-StaysHub :
    {A B : Type 0} (m : Handler A) (f : A → Handler B)
    → Keeps StaysHub m
    → ((a : A) → Keeps StaysHub (f a))
    → Keeps StaysHub (m >>= f)
bind-StaysHub m f h k = bind-Keeps StaysHub StaysHub-order m f h k

module _ (texts : Texts) (primary_draw cleanup_draw : ReleaseDraw) where
  create_release-Keeps :
      (request : CreateReleaseRequest)
      → Keeps StaysHub (create_release texts primary_draw cleanup_draw request)
  unfolding create_release
  create_release-Keeps request =
      bind-StaysHub _ _
        (ensure-StaysHub (request.scope_type == "site")
          (bad_request "only site scope is implemented in P0/P1"))
        (λ _.
          bind-StaysHub _ _ (gets-StaysHub (λ hub. find_site request.scope_id hub.repo)) (λ found.
            bind-StaysHub _ _ (lift-StaysHub (ok_or found (not_found "site not found"))) (λ site.
              bind-StaysHub _ _
                (gets-StaysHub
                  (λ hub. detached_node_ids_for_site site.id (bound_nodes site) hub.repo))
                (λ detached.
                  bind-StaysHub _ _
                    (ensure-StaysHub (not (is_empty (bound_nodes site) && is_empty detached))
                      (bad_request "site has no node bindings"))
                    (λ _.
                      bind-StaysHub _ _
                        (only-Keeps _ (
                          primary_release-Keeps texts primary_draw site request.release_type
                            request.reason))
                        (λ primary.
                          bind-StaysHub _ _
                            (only-Keeps _ (
                              cleanup_release-Keeps texts cleanup_draw site detached
                                request.reason))
                            (λ cleanup.
                              bind-StaysHub _ _
                                (write_site-Keeps
                                  (record site { status = released_status primary }))
                                (λ _. lift-StaysHub (
                                  ok_or (or_else primary cleanup)
                                    (internal "release creation produced no artifacts"))))))))))

  switch_target-Keeps :
      (site : SiteRecord) (current named : Option Uuid)
      → Keeps StaysHub (switch_target site current named)
  unfolding switch_target
  switch_target-Keeps site current none = lift-StaysHub _
  switch_target-Keeps site current (some id) =
      bind-StaysHub _ _ (gets-StaysHub (λ hub. find_node id hub.repo)) (λ found.
        bind-StaysHub _ _ (lift-StaysHub (ok_or found (not_found "target node not found")))
          (λ node. lift-StaysHub (ok id)))

  follow_policies-Keeps :
      (site_id target : Uuid) (standby : Option Uuid)
      → Keeps StaysHub (write (follow_policies site_id target standby))
  unfolding Keeps update_active_failover_policy_targets
  follow_policies-Keeps site_id target none hub h = h
  follow_policies-Keeps site_id target (some standby) hub h = h

  switch_site_primary-Keeps :
      (site_id : Uuid) (request : SwitchSitePrimaryRequest)
      → Keeps StaysHub (switch_site_primary texts primary_draw cleanup_draw site_id request)
  unfolding switch_site_primary
  switch_site_primary-Keeps site_id request =
      bind-StaysHub _ _ (gets-StaysHub (λ hub. find_site site_id hub.repo)) (λ found.
        bind-StaysHub _ _ (lift-StaysHub (ok_or found (not_found "site not found"))) (λ site.
          bind-StaysHub _ _
            (ensure-StaysHub (not (is_empty site.bindings))
              (bad_request "site has no node bindings"))
            (λ _.
              bind-StaysHub _ _
                (switch_target-Keeps site (switch_from site.bindings) request.target_node_id)
                (λ target.
                  bind-StaysHub _ _
                    (ensure-StaysHub (not (is_current (switch_from site.bindings) target))
                      (conflict "target node is already the primary node"))
                    (λ _.
                      let current = switch_from site.bindings in
                      let keep = unwrap_or request.keep_previous_as_standby true in
                      let after = switched_site keep target current site in
                      bind-StaysHub _ _ (write_site-Keeps after) (λ _.
                        bind-StaysHub _ _
                          (follow_policies-Keeps site_id target
                            (select_next_failover_policy_standby after.bindings target))
                          (λ _.
                            bind-StaysHub _ _
                              (create_release-Keeps
                                (switch_release texts.uuid_text request.reason site site_id target))
                              (λ release. lift-StaysHub (
                                ok (
                                  switch_response site_id current target after.bindings
                                    release))))))))))

  pub create_release-IsHub :
      (request : CreateReleaseRequest) (hub : HubState)
      → IsHub hub
      → IsHub (create_release texts primary_draw cleanup_draw request hub).1
  unfolding Keeps
  create_release-IsHub request hub h = create_release-Keeps request hub h

  pub switch_site_primary-IsHub :
      (site_id : Uuid) (request : SwitchSitePrimaryRequest) (hub : HubState)
      → IsHub hub
      → IsHub (switch_site_primary texts primary_draw cleanup_draw site_id request hub).1
  unfolding Keeps
  switch_site_primary-IsHub site_id request hub h = switch_site_primary-Keeps site_id request hub h
