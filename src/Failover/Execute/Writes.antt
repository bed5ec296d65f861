-- ===== src/Failover/Execute/Writes.antt =====
-- The rows and the statements that a switch is made of, and what it takes from outside.
use pingora_mesh.Base.{
  ℕ, String, Bool, not, Option, none, some, List, [], ◌∷◌, ◌++◌, map, ◌==◌, nat_eq, string_eq,
  keep_if, ◌>>◌, pure, if◌then◌else◌,
}
use pingora_mesh.Base.Text.{◌<>◌}
use pingora_mesh.Json.{Value}
use pingora_mesh.Domain.{Uuid, DateTime, ReleaseTarget}
use pingora_mesh.Failover.Snapshot.{SiteSnapshot, SiteBindingSnapshot, PolicySnapshot}
use pingora_mesh.Failover.Bindings.{select_next_policy_standby}
use pingora_mesh.Failover.Dns.{Parsers}
use pingora_mesh.Failover.Tables.{BindingRow, PolicyRow, ReleaseRow, ReleaseStatusRow, SiteRow}
use pingora_mesh.Failover.Database.{Act, execute, for_each}

-- What the worker takes from libraries, and the ids and the clock that one switch draws.
pub record Library : Type 0 where
  pub parsers : Parsers
  pub parse_json : String → Option Value
  pub timestamp : DateTime → String
  pub timestamp_millis : DateTime → ℕ
  pub to_lowercase : String → String

pub record FailoverDraw : Type 0 where
  pub event_id : Uuid
  pub release_id : Uuid
  pub compiled_at : DateTime
  pub record_id : Uuid
  pub log_id : Uuid
  pub operation_id : ℕ → Uuid

abbrev pub is_elsewhere : Uuid → BindingRow → Bool
is_elsewhere site_id row = not (row.site_id == site_id)

abbrev pub binding_row : Uuid → SiteBindingSnapshot → BindingRow
binding_row site_id b = record {
  site_id = site_id;
  node_id = b.node_id;
  status = "active";
  bind_mode = "failover";
  binding_role = b.binding_role;
  priority = b.priority;
}

abbrev pub insert_binding : Uuid → SiteBindingSnapshot → Act (Unit {0})
insert_binding site_id b = execute (λ tables. record tables {
  site_node_bindings = tables.site_node_bindings ++ binding_row site_id b ∷ [];
})

abbrev pub clear_bindings : Uuid → Act (Unit {0})
clear_bindings site_id = execute (λ tables. record tables {
  site_node_bindings = keep_if (is_elsewhere site_id) tables.site_node_bindings;
})

unfoldable pub save_site_bindings : Uuid → List SiteBindingSnapshot → Act (Unit {0})
save_site_bindings site_id bindings = do
  clear_bindings site_id
  for_each (insert_binding site_id) bindings

abbrev pub advanced : PolicySnapshot → Uuid → PolicyRow → PolicyRow
advanced policy standby row =
    if row.id == policy.policy_id
    then record row { primary_node_id = policy.standby_node_id; standby_node_id = standby }
    else row

unfoldable pub advance_failover_policy :
    PolicySnapshot → List SiteBindingSnapshot → Act (Option Uuid)
advance_failover_policy policy switched_bindings =
    elim (select_next_policy_standby switched_bindings policy.standby_node_id) [
      | none ↦ pure none
      | some next_standby_node_id ↦ do
        execute (λ tables. record tables {
          failover_policies = map (advanced policy next_standby_node_id) tables.failover_policies;
        })
        pure (some next_standby_node_id)
    ]

abbrev pub target_of : SiteSnapshot → SiteBindingSnapshot → ReleaseTarget
target_of site b = record {
  node_id = b.node_id;
  site_ids = site.site_id ∷ [];
  preheated = b.binding_role == "standby";
}

abbrev pub insert_release : ReleaseRow → Act (Unit {0})
insert_release row =
    execute (λ tables. record tables { config_releases = tables.config_releases ++ row ∷ [] })

abbrev pub queued_status : Uuid → String → SiteBindingSnapshot → ReleaseStatusRow
queued_status release_id release_version b = record {
  release_id = release_id;
  node_id = b.node_id;
  target_version = release_version;
  current_version = none;
  apply_status = "pending";
  apply_message = "queued by failover-worker";
  acked_at = none;
}

abbrev pub insert_status : Uuid → String → SiteBindingSnapshot → Act (Unit {0})
insert_status release_id release_version b = execute (λ tables. record tables {
  node_release_status =
      tables.node_release_status ++ queued_status release_id release_version b ∷ [];
})

abbrev pub published_row : Uuid → SiteRow → SiteRow
published_row site_id row = if row.id == site_id then record row { status = "published" } else row

abbrev pub publish_site : Uuid → Act (Unit {0})
publish_site site_id =
    execute (λ tables. record tables { sites = map (published_row site_id) tables.sites })

abbrev pub no_targets : SiteSnapshot → String
no_targets site =
    "no eligible target nodes available for site " <> site.site_code <> " after failover switch"
