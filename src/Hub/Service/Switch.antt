-- ===== src/Hub/Service/Switch.antt =====
-- `switch_site_primary` of service.rs: the bindings are rewritten, the site is saved as a draft with
-- a new version, and a release is made for it.
use pingora_mesh.Base.{
  ℕ, ◌+◌, String, Bool, true, false, not, Option, none, some, List, is_empty, length, ◌==◌, nat_eq,
  ok_or, ◌>>=◌, ◌>>◌, pure, lift, gets, ensure,
}
use pingora_mesh.Base.Text.{◌<>◌}
use pingora_mesh.Json.{unwrap_or}
use pingora_mesh.Domain.{Uuid, draft}
use pingora_mesh.Hub.Records.{SiteRecord, SiteBindingRecord}
use pingora_mesh.Hub.Memory.{MemoryState}
use pingora_mesh.Hub.Memory.Nodes.{find_node}
use pingora_mesh.Hub.Memory.Sites.{find_site, save_site, update_active_failover_policy_targets}
use pingora_mesh.Hub.Service.{Handler, Texts, write}
use pingora_mesh.Hub.Service.AppError.{bad_request, not_found, conflict}
use pingora_mesh.Hub.Service.Bindings.{
  switch_from, default_target, switched_site_bindings, select_next_failover_policy_standby,
}
use pingora_mesh.Hub.Service.Releases.{SavedRelease}
use pingora_mesh.Hub.Service.Publish.{ReleaseDraw, CreateReleaseRequest, create_release}

pub record SwitchSitePrimaryRequest : Type 0 where
  pub target_node_id : Option Uuid
  pub keep_previous_as_standby : Option Bool
  pub reason : Option String

pub record SwitchSitePrimaryResponse : Type 0 where
  pub site_id : Uuid
  pub previous_primary_node_id : Option Uuid
  pub current_primary_node_id : Uuid
  pub next_standby_node_id : Option Uuid
  pub binding_count : ℕ
  pub release_id : Uuid
  pub release_version : String

abbrev pub is_current : Option Uuid → Uuid → Bool
is_current none id = false
is_current (some current) id = current == id

-- The node to switch to: a named one must exist, or one of the site's other nodes is taken.
unfoldable pub switch_target : SiteRecord → Option Uuid → Option Uuid → Handler Uuid
switch_target site current (some target_node_id) = do
  found ← gets (λ hub. find_node target_node_id hub.repo)
  node ← lift (ok_or found (not_found "target node not found"))
  pure target_node_id
switch_target site current none = lift (
    ok_or (default_target site.bindings current) (conflict "site has no standby node to switch to"))

-- The site after the switch.
unfoldable pub switched_site : Bool → Uuid → Option Uuid → SiteRecord → SiteRecord
switched_site keep target previous site = record site {
  bindings = switched_site_bindings keep target previous site.bindings;
  status = draft;
  version = site.version + 1;
}

-- The policies follow where a standby is left.
abbrev pub follow_policies : Uuid → Uuid → Option Uuid → MemoryState → MemoryState
follow_policies site_id target none repo = repo
follow_policies site_id target (some standby) repo =
    update_active_failover_policy_targets site_id target standby repo

-- The request for the release that follows a switch.
abbrev pub switch_release :
    (Uuid → String) → Option String → SiteRecord → Uuid → Uuid → CreateReleaseRequest
switch_release uuid_text reason site site_id target = record {
  scope_type = "site";
  scope_id = site_id;
  release_type = "switch";
  reason =
      unwrap_or reason ("switch primary node for " <> site.site_code <> " to " <> uuid_text target);
}

abbrev pub switch_response :
    Uuid → Option Uuid → Uuid → List SiteBindingRecord → SavedRelease → SwitchSitePrimaryResponse
switch_response site_id previous target bindings release = record {
  site_id = site_id;
  previous_primary_node_id = previous;
  current_primary_node_id = target;
  next_standby_node_id = select_next_failover_policy_standby bindings target;
  binding_count = length bindings;
  release_id = release.release_id;
  release_version = release.release_version;
}

unfoldable pub switch_site_primary :
    Texts
    → (primary_draw cleanup_draw : ReleaseDraw) → Uuid
    → SwitchSitePrimaryRequest
    → Handler SwitchSitePrimaryResponse
switch_site_primary texts primary_draw cleanup_draw site_id request = do
  found ← gets (λ hub. find_site site_id hub.repo)
  site ← lift (ok_or found (not_found "site not found"))
  ensure (not (is_empty site.bindings)) (bad_request "site has no node bindings")
  let current = switch_from site.bindings
  target ← switch_target site current request.target_node_id
  ensure (not (is_current current target)) (conflict "target node is already the primary node")
  let keep = unwrap_or request.keep_previous_as_standby true
  let after = switched_site keep target current site
  let next_standby = select_next_failover_policy_standby after.bindings target
  write (save_site after)
  write (follow_policies site_id target next_standby)
  release ←
      create_release texts primary_draw cleanup_draw
        (switch_release texts.uuid_text request.reason site site_id target)
  pure (switch_response site_id current target after.bindings release)
