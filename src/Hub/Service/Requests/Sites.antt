-- ===== src/Hub/Service/Requests/Sites.antt =====
-- The requests that change a site keep what every request keeps.
use pingora_mesh.Base.{
  String, Bool, inl, inr, ok, ok_or, is_empty, Bool-cases, Option-cases, Keeps, pure, ◌>>=◌,
  if◌then◌else◌, nat_eq, string_eq, not, ◌==◌,
}
use pingora_mesh.Base.Map
use pingora_mesh.Base.Text.{◌<>◌, trim}
use pingora_mesh.Domain.{Uuid}
use pingora_mesh.Hub.Records.{SiteRecord}
use pingora_mesh.Hub.Memory.Nodes.{find_node}
use pingora_mesh.Hub.Memory.Sites.{find_site, delete_site}
use pingora_mesh.Hub.Service.{HubState, Texts, write}
use pingora_mesh.Hub.Service.AppError.{bad_request, not_found, internal}
use pingora_mesh.Hub.Service.Validation.{validate_site_config}
use pingora_mesh.Hub.Service.Publish.{
  ReleaseDraw, bound_nodes, save_site_release, save_site_cleanup_release,
}
use pingora_mesh.Hub.Service.Publish.Laws.{save_site_release-Keeps, save_site_cleanup_release-Keeps}
use pingora_mesh.Hub.Service.Sites.{
  CreateSiteRequest, UpdateSiteRequest, unique_code, new_site, create_site, parse_protocol,
  updated_site, update_site, toggled_site, toggle_release, update_site_status, farewell_release,
  remove_site,
}
use pingora_mesh.Hub.Service.Requests.Keyed.{IsHub}
use pingora_mesh.Hub.Service.Requests.Publish.{
  StaysHub, only-Keeps, write_site-Keeps, lift-StaysHub, ensure-StaysHub, gets-StaysHub,
  bind-StaysHub,
}

update_site-Keeps :
    (site_id : Uuid) (request : UpdateSiteRequest) → Keeps StaysHub (update_site site_id request)
unfolding update_site
update_site-Keeps site_id request =
    bind-StaysHub _ _ (lift-StaysHub (parse_protocol request.protocol)) (λ protocol.
      bind-StaysHub _ _ (lift-StaysHub (validate_site_config request.config)) (λ _.
        bind-StaysHub _ _ (gets-StaysHub (λ hub. find_site site_id hub.repo)) (λ found.
          bind-StaysHub _ _ (lift-StaysHub (ok_or found (not_found "site not found"))) (λ site.
            bind-StaysHub _ _ (write_site-Keeps (updated_site request protocol site))
              (λ _. lift-StaysHub (ok (updated_site request protocol site)))))))

create_site-Keeps :
    (site_id : Uuid) (fresh : String) (request : CreateSiteRequest)
    → Keeps StaysHub (create_site site_id fresh request)
unfolding create_site
create_site-Keeps site_id fresh request =
    bind-StaysHub _ _
      (ensure-StaysHub (not (trim request.domain == "")) (bad_request "domain is required"))
      (λ _. bind-StaysHub _ _ (lift-StaysHub (validate_site_config request.config)) (λ _.
        bind-StaysHub _ _ (lift-StaysHub (parse_protocol request.protocol)) (λ protocol.
          bind-StaysHub _ _ (gets-StaysHub (unique_code fresh request)) (λ found.
            bind-StaysHub _ _ (lift-StaysHub (ok_or found (internal "no code"))) (λ site_code.
              bind-StaysHub _ _ (write_site-Keeps (new_site site_id site_code protocol request))
                (λ _. lift-StaysHub (ok (new_site site_id site_code protocol request))))))))

write_delete-Keeps : (site_id : Uuid) → Keeps StaysHub (write (delete_site site_id))
unfolding Keeps delete_site find_node
write_delete-Keeps site_id hub h = elim (Option-cases (Map.get site_id hub.repo.sites)) [
  | inl e ↦ rw (e, delete_site) h
  | inr (site, e) ↦
      rw (e, delete_site) (record { tokens = h.tokens; nodes = h.nodes; releases = h.releases })
]

module _ (texts : Texts) (draw : ReleaseDraw) where
  toggle_release-Keeps :
      (enabled : Bool) (site : SiteRecord) → Keeps StaysHub (toggle_release texts draw enabled site)
  unfolding Keeps
  toggle_release-Keeps enabled site hub = elim (Bool-cases (is_empty site.bindings)) [
    | inl alone ↦ rw (alone) (λ h. h)
    | inr bound ↦ rw (bound) (released hub)
  ]
    where
      released : Keeps StaysHub (
          save_site_release texts draw site
            (if enabled then "enable" else "disable")
            ((if enabled then "enable site " else "disable site ") <> site.site_code)
          >>= (λ saved. pure tt))
      released =
          let kind = if enabled then "enable" else "disable" in
          let reason = (if enabled then "enable site " else "disable site ") <> site.site_code in
          bind-StaysHub (save_site_release texts draw site kind reason) (λ saved. pure tt)
            (only-Keeps (save_site_release texts draw site kind reason)
              (save_site_release-Keeps texts draw site kind reason))
            (λ _. lift-StaysHub (ok tt))

  farewell_release-Keeps : (site : SiteRecord) → Keeps StaysHub (farewell_release texts draw site)
  unfolding Keeps
  farewell_release-Keeps site hub = elim (Bool-cases (is_empty site.bindings)) [
    | inl alone ↦ rw (alone) (λ h. h)
    | inr bound ↦ rw (bound) (released hub)
  ]
    where
      released : Keeps StaysHub (
          save_site_cleanup_release texts draw site (bound_nodes site) "delete site"
          >>= (λ saved. pure tt))
      released =
          let release =
            save_site_cleanup_release texts draw site (bound_nodes site) "delete site" in
          bind-StaysHub release (λ saved. pure tt)
            (only-Keeps release
              (save_site_cleanup_release-Keeps texts draw site (bound_nodes site) "delete site"))
            (λ _. lift-StaysHub (ok tt))

  update_site_status-Keeps :
      (site_id : Uuid) (enabled : Bool)
      → Keeps StaysHub (update_site_status texts draw site_id enabled)
  unfolding update_site_status
  update_site_status-Keeps site_id enabled =
      bind-StaysHub _ _ (gets-StaysHub (λ hub. find_site site_id hub.repo)) (λ found.
        bind-StaysHub _ _ (lift-StaysHub (ok_or found (not_found "site not found"))) (λ site.
          bind-StaysHub _ _ (write_site-Keeps (toggled_site enabled site)) (λ _.
            bind-StaysHub _ _ (toggle_release-Keeps enabled (toggled_site enabled site))
              (λ _. lift-StaysHub (ok (toggled_site enabled site))))))

  remove_site-Keeps : (site_id : Uuid) → Keeps StaysHub (remove_site texts draw site_id)
  unfolding remove_site
  remove_site-Keeps site_id =
      bind-StaysHub _ _ (gets-StaysHub (λ hub. find_site site_id hub.repo)) (λ found.
        bind-StaysHub _ _ (lift-StaysHub (ok_or found (not_found "site not found"))) (λ site.
          bind-StaysHub _ _ (farewell_release-Keeps site)
            (λ _. bind-StaysHub _ _ (write_delete-Keeps site_id) (λ _. lift-StaysHub (ok site)))))

  pub update_site_status-IsHub :
      (site_id : Uuid) (enabled : Bool) (hub : HubState)
      → IsHub hub
      → IsHub (update_site_status texts draw site_id enabled hub).1
  unfolding Keeps
  update_site_status-IsHub site_id enabled hub h = update_site_status-Keeps site_id enabled hub h

  pub remove_site-IsHub :
      (site_id : Uuid) (hub : HubState) → IsHub hub → IsHub (remove_site texts draw site_id hub).1
  unfolding Keeps
  remove_site-IsHub site_id hub h = remove_site-Keeps site_id hub h

pub update_site-IsHub :
    (site_id : Uuid) (request : UpdateSiteRequest) (hub : HubState)
    → IsHub hub
    → IsHub (update_site site_id request hub).1
unfolding Keeps
update_site-IsHub site_id request hub h = update_site-Keeps site_id request hub h

pub create_site-IsHub :
    (site_id : Uuid) (fresh : String) (request : CreateSiteRequest) (hub : HubState)
    → IsHub hub
    → IsHub (create_site site_id fresh request hub).1
unfolding Keeps
create_site-IsHub site_id fresh request hub h = create_site-Keeps site_id fresh request hub h
