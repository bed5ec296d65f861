-- ===== src/Hub/Service/Sites.antt =====
-- The requests of service.rs that change a site: its configuration, whether it is enabled, and its
-- deletion.
pub mod Laws
use pingora_mesh.Base.{
  ℕ, ◌+◌, String, Bool, true, false, not, Option, none, some, List, [], suc, length, ensure,
  is_empty, ◌==◌, string_eq, Result, ok, err, ok_or, ◌>>=◌, ◌>>◌, pure, lift, gets, if◌then◌else◌,
}
use pingora_mesh.Base.Text.{◌<>◌, trim, to_ascii_lowercase}
use pingora_mesh.Hub.Service.Codes.{generate_unique_site_code}
use pingora_mesh.Json.{Value}
use pingora_mesh.Domain.{Uuid, Protocol, SiteStatus, draft, published, disabled}
use pingora_mesh.Hub.Records.{SiteRecord}
use pingora_mesh.Hub.Memory.Sites.{find_site, save_site, delete_site}
use pingora_mesh.Hub.Service.{AppError, HubState, Handler, Texts, write}
use pingora_mesh.Hub.Service.AppError.{bad_request, not_found, internal}
use pingora_mesh.Hub.Service.Releases.{SavedRelease}
use pingora_mesh.Hub.Service.Validation.{validate_site_config}
use pingora_mesh.Hub.Service.Publish.{
  ReleaseDraw, bound_nodes, save_site_release, save_site_cleanup_release,
}

pub record UpdateSiteRequest : Type 0 where
  pub name : String
  pub domain : String
  pub listen_port : ℕ
  pub protocol : String
  pub tls_enabled : Bool
  pub config : Value

pub record CreateSiteRequest : Type 0 where
  pub site_code : Option String
  pub name : String
  pub domain : String
  pub listen_port : ℕ
  pub protocol : String
  pub tls_enabled : Bool
  pub config : Value

unfoldable pub parse_protocol : String → Result AppError Protocol
parse_protocol raw =
    let lower = to_ascii_lowercase raw in
    if lower == "http"
    then ok Protocol.http
    else if lower == "https"
    then ok Protocol.https
    else if lower == "tcp"
    then ok Protocol.tcp
    else err (bad_request "unsupported protocol")

abbrev pub new_site : Uuid → String → Protocol → CreateSiteRequest → SiteRecord
new_site site_id site_code protocol request = record {
  id = site_id;
  site_code = site_code;
  name = request.name;
  domain = request.domain;
  listen_port = request.listen_port;
  protocol = protocol;
  tls_enabled = request.tls_enabled;
  status = draft;
  version = 1;
  config = request.config;
  bindings = [];
}

-- One round of the search for a code more than there are codes.
abbrev pub unique_code : String → CreateSiteRequest → HubState → Option String
unique_code fresh request hub =
    generate_unique_site_code (suc (length hub.repo.site_ids_by_code)) hub.repo fresh
      request.site_code request.name request.domain

-- `fresh` is `site-` with a new `Uuid`; the search does not run out of rounds.
unfoldable pub create_site :
    (site_id : Uuid) (fresh : String) → CreateSiteRequest → Handler SiteRecord
create_site site_id fresh request = do
  ensure (not (trim request.domain == "")) (bad_request "domain is required")
  lift (validate_site_config request.config)
  protocol ← lift (parse_protocol request.protocol)
  found ← gets (unique_code fresh request)
  site_code ← lift (ok_or found (internal "no code"))
  write (save_site (new_site site_id site_code protocol request))
  pure (new_site site_id site_code protocol request)

-- The site with the fields of the request; a new version is a draft.
abbrev pub updated_site : UpdateSiteRequest → Protocol → SiteRecord → SiteRecord
updated_site request protocol site = record site {
  name = request.name;
  domain = request.domain;
  listen_port = request.listen_port;
  protocol = protocol;
  tls_enabled = request.tls_enabled;
  config = request.config;
  version = site.version + 1;
  status = draft;
}

-- The requests answer with fields of the site that they return here.
unfoldable pub update_site : Uuid → UpdateSiteRequest → Handler SiteRecord
update_site site_id request = do
  protocol ← lift (parse_protocol request.protocol)
  lift (validate_site_config request.config)
  found ← gets (λ hub. find_site site_id hub.repo)
  site ← lift (ok_or found (not_found "site not found"))
  write (save_site (updated_site request protocol site))
  pure (updated_site request protocol site)

unfoldable pub toggled_status : Bool → SiteRecord → SiteStatus
toggled_status enabled site =
    if enabled then (if is_empty site.bindings then draft else published) else disabled

abbrev pub toggled_site : Bool → SiteRecord → SiteRecord
toggled_site enabled site = record site {
  status = toggled_status enabled site;
  version = site.version + 1;
}

module _ (texts : Texts) (draw : ReleaseDraw) where
  -- `if !site.bindings.is_empty()`
  abbrev pub toggle_release : Bool → SiteRecord → Handler (Unit {0})
  toggle_release enabled site hub =
      if is_empty site.bindings
      then (ok tt, hub)
      else (do
        saved ←
            save_site_release texts draw site (if enabled then "enable" else "disable")
              ((if enabled then "enable site " else "disable site ") <> site.site_code)
        pure tt)
          hub

  unfoldable pub update_site_status : Uuid → Bool → Handler SiteRecord
  update_site_status site_id enabled = do
    found ← gets (λ hub. find_site site_id hub.repo)
    site ← lift (ok_or found (not_found "site not found"))
    write (save_site (toggled_site enabled site))
    toggle_release enabled (toggled_site enabled site)
    pure (toggled_site enabled site)

  abbrev pub farewell_release : SiteRecord → Handler (Unit {0})
  farewell_release site hub =
      if is_empty site.bindings
      then (ok tt, hub)
      else (do
        saved ← save_site_cleanup_release texts draw site (bound_nodes site) "delete site"
        pure tt)
          hub

  unfoldable pub remove_site : Uuid → Handler SiteRecord
  remove_site site_id = do
    found ← gets (λ hub. find_site site_id hub.repo)
    site ← lift (ok_or found (not_found "site not found"))
    farewell_release site
    write (delete_site site_id)
    pure site
