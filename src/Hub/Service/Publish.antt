-- ===== src/Hub/Service/Publish.antt =====
-- How service.rs makes the releases of a site: one for the nodes that are bound, and one that cleans
-- up on the nodes that are bound no more.
pub mod Laws
use pingora_mesh.Base.{
  ℕ, ◌+◌, ◌%◌, ◌^◌, String, Bool, true, false, not, ◌&&◌, Option, none, some, List, [], ◌∷◌, map,
  is_empty, ◌==◌, string_eq, if◌then◌else◌, Result, ok, err, ok_or, map_err, ◌>>=◌, ◌>>◌, pure,
  lift, gets, modify, ensure,
}
use pingora_mesh.Base.Text.{◌<>◌}
use pingora_mesh.Domain.{Uuid, DateTime, SiteSpec, SiteStatus, published, draft, ReleaseTarget}
use pingora_mesh.SiteConfig.{parse_upstreams, parse_routes, parse_cache_rules, or_else}
use pingora_mesh.ReleasePlanner.{build_release_version}
use pingora_mesh.ConfigCompiler.{compile_site_bundle, compile_site_cleanup_bundle}
use pingora_mesh.Hub.Records.{SiteRecord, SiteBindingRecord}
use pingora_mesh.Hub.Memory.Sites.{find_site, save_site, site_certificates}
use pingora_mesh.Hub.Service.{AppError, HubState, Handler, Texts, write}
use pingora_mesh.Hub.Service.AppError.{bad_request, not_found, internal}
use pingora_mesh.Hub.Service.Validation.{validate_site_config}
use pingora_mesh.Hub.Service.Releases.{
  SavedRelease, save_compiled_release, detached_node_ids_for_site,
}

-- What one release draws: its id, and the clock where its version, its bundle and its row read it.
pub record ReleaseDraw : Type 0 where
  pub release_id : Uuid
  pub versioned_at : DateTime
  pub compiled_at : DateTime
  pub created_at : DateTime

pub record CreateReleaseRequest : Type 0 where
  pub scope_type : String
  pub scope_id : Uuid
  pub release_type : String
  pub reason : String

-- `AtomicU64::fetch_add`
unfoldable pub next_serial : Handler ℕ
next_serial hub =
    (ok hub.release_counter, record hub { release_counter = (hub.release_counter + 1) % 2 ^ 64 })

abbrev pub target_of : SiteRecord → SiteBindingRecord → ReleaseTarget
target_of site b = record {
  node_id = b.node_id;
  site_ids = site.id ∷ [];
  preheated = b.binding_role == "standby";
}

abbrev pub cleanup_target_of : SiteRecord → Uuid → ReleaseTarget
cleanup_target_of site node_id = record {
  node_id = node_id;
  site_ids = site.id ∷ [];
  preheated = false;
}

abbrev pub bound_nodes : SiteRecord → List Uuid
bound_nodes site = map (λ (b : SiteBindingRecord). b.node_id) site.bindings

abbrev pub released_status : Option SavedRelease → SiteStatus
released_status none = draft
released_status (some saved) = published

module _ (texts : Texts) where
  unfoldable pub to_spec : SiteRecord → SiteSpec
  to_spec site =
      let upstreams = parse_upstreams site.config in
      record {
        id = site.id;
        site_code = site.site_code;
        name = site.name;
        domain = site.domain;
        listen_port = site.listen_port;
        protocol = site.protocol;
        tls_enabled = site.tls_enabled;
        status = site.status;
        upstreams = upstreams;
        routes = parse_routes site.config upstreams;
        cache_rules = parse_cache_rules texts.to_lowercase site.config;
      }

  unfoldable pub save_site_release :
      ReleaseDraw → SiteRecord → (release_type reason : String) → Handler SavedRelease
  save_site_release draw site release_type reason = do
    lift (validate_site_config site.config)
    serial ← next_serial
    certificates ← gets (λ hub. site_certificates site.id hub.repo)
    bundle ← lift (
        map_err internal (
          compile_site_bundle texts.uuid_text draw.release_id draw.compiled_at (to_spec site)
            certificates (map (target_of site) site.bindings)
            (build_release_version texts.timestamp "site" draw.versioned_at serial)))
    save_compiled_release draw.created_at "site" (some site.id) release_type reason bundle
        (bound_nodes site)

  unfoldable pub save_site_cleanup_release :
      ReleaseDraw → SiteRecord → List Uuid → (reason : String) → Handler SavedRelease
  save_site_cleanup_release draw site detached_node_ids reason = do
    serial ← next_serial
    bundle ← lift (
        map_err internal (
          compile_site_cleanup_bundle texts.uuid_text draw.release_id draw.compiled_at
            (to_spec site) (map (cleanup_target_of site) detached_node_ids)
            (build_release_version texts.timestamp "cleanup" draw.versioned_at serial)))
    save_compiled_release draw.created_at "site_cleanup" (some site.id) "cleanup"
        ("cleanup detached nodes for " <> site.site_code <> ": " <> reason) bundle detached_node_ids

  -- The release for the bound nodes, where there are some.
  unfoldable pub primary_release :
      ReleaseDraw → SiteRecord → (release_type reason : String) → Handler (Option SavedRelease)
  primary_release draw site release_type reason hub =
      if is_empty (bound_nodes site)
      then (ok none, hub)
      else (do saved ← save_site_release draw site release_type reason; pure (some saved)) hub

  unfoldable pub cleanup_release :
      ReleaseDraw → SiteRecord → List Uuid → (reason : String) → Handler (Option SavedRelease)
  cleanup_release draw site detached_node_ids reason hub =
      if is_empty detached_node_ids
      then (ok none, hub)
      else (do
        saved ← save_site_cleanup_release draw site detached_node_ids reason
        pure (some saved))
          hub

  -- `create_release`; its response is the release that is returned.
  unfoldable pub create_release :
      (primary_draw cleanup_draw : ReleaseDraw) → CreateReleaseRequest → Handler SavedRelease
  create_release primary_draw cleanup_draw request = do
    ensure (request.scope_type == "site") (bad_request "only site scope is implemented in P0/P1")
    found ← gets (λ hub. find_site request.scope_id hub.repo)
    site ← lift (ok_or found (not_found "site not found"))
    detached ← gets (λ hub. detached_node_ids_for_site site.id (bound_nodes site) hub.repo)
    ensure (not (is_empty (bound_nodes site) && is_empty detached))
        (bad_request "site has no node bindings")
    primary ← primary_release primary_draw site request.release_type request.reason
    cleanup ← cleanup_release cleanup_draw site detached request.reason
    write (save_site (record site { status = released_status primary }))
    lift (ok_or (or_else primary cleanup) (internal "release creation produced no artifacts"))
