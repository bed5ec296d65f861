-- ===== src/Hub/Service/Sites/Laws.antt =====
-- What the creation of a site does.
use pingora_mesh.Base.{
  suc, ◌≡◌, ◌<◌, ◌∙◌, refl, String, false, none, some, [], length, arith, ok, ◌==◌, string_eq,
  nat_eq, ==_refl,
}
use pingora_mesh.Base.Map.{get-insert}
use pingora_mesh.Base.Text.{trim}
use pingora_mesh.Domain.{Uuid, Protocol, draft}
use pingora_mesh.Hub.Memory.Sites.{save_site, find_site, site_id_by_code}
use pingora_mesh.Hub.Records.{SiteRecord}
use pingora_mesh.Hub.Service.{HubState}
use pingora_mesh.Hub.Service.Codes.{u32_values}
use pingora_mesh.Hub.Service.Validation.{validate_site_config}
use pingora_mesh.Hub.Service.Sites.{CreateSiteRequest, parse_protocol, new_site, create_site}
use pingora_mesh.Hub.Service.Codes.Free.{generate_unique_site_code-ends}

-- A first draft of a site, with what the request asks for and nothing bound.
abbrev pub IsNewDraft : Uuid → Protocol → CreateSiteRequest → SiteRecord → Type 0
IsNewDraft site_id protocol request site =
    (site.id ≡ site_id)
    × (site.status ≡ draft)
    × (site.bindings ≡ [])
    × (site.version ≡ 1)
    × (site.name ≡ request.name)
    × (site.domain ≡ request.domain)
    × (site.listen_port ≡ request.listen_port)
    × (site.protocol ≡ protocol)
    × (site.tls_enabled ≡ request.tls_enabled)
    × (site.config ≡ request.config)

-- Where there are fewer codes than values of a `u32`, a request with a domain, a configuration that is
-- accepted and a known protocol makes a site: a draft of the first version, without bindings, with
-- the fields of the request, under the new id and a code that no site had. It is stored, and found by
-- its id and by its code.
pub create_site-succeeds :
    (site_id : Uuid) (fresh : String) (request : CreateSiteRequest) (hub : HubState)
    (protocol : Protocol)
    → length hub.repo.site_ids_by_code < u32_values
    → (trim request.domain == "") ≡ false
    → validate_site_config request.config ≡ ok tt
    → parse_protocol request.protocol ≡ ok protocol
    → (site : SiteRecord) × (after : HubState) × (create_site site_id fresh request hub
        ≡ (ok site, after))
      × IsNewDraft site_id protocol request site
      × (site_id_by_code site.site_code hub.repo ≡ none)
      × (site_id_by_code site.site_code after.repo ≡ some site_id)
      × (find_site site_id after.repo ≡ some site)
unfolding create_site save_site site_id_by_code find_site
create_site-succeeds site_id fresh request hub protocol few domain config known =
    let (site_code, found, free) =
      generate_unique_site_code-ends (suc (length hub.repo.site_ids_by_code)) hub.repo fresh
        request.site_code request.name request.domain (omega arith) few in
    let site = new_site site_id site_code protocol request in
    (
      site,
      record hub { repo = save_site site hub.repo },
      rw (domain, config, known, found, create_site) refl,
      (refl, refl, refl, refl, refl, refl, refl, refl, refl, refl),
      free,
      get-insert site_code site_code site_id hub.repo.site_ids_by_code
          ∙ rw (==_refl site_code) refl,
      get-insert site_id site_id site hub.repo.sites ∙ rw (==_refl site_id) refl,
    )
