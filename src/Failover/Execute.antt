-- ===== src/Failover/Execute.antt =====
-- `execute_site_failover` of apps/failover-worker/src/main.rs, one transaction, and the statements
-- that it is made of.
mod Writes
pub mod Frame
pub mod Laws
unfoldable pub use Writes.*
use pingora_mesh.Base.{
  ℕ, ◌+◌, String, Bool, true, false, not, Option, none, some, List, [], ◌∷◌, ◌++◌, map, ◌==◌,
  nat_eq, string_eq, keep_if, is_empty, ok_or, ◌>>=◌, ◌>>◌, lift, pure, ensure, if◌then◌else◌,
}
use pingora_mesh.Base.Text.{◌<>◌}
use pingora_mesh.Json.{
  Value, null, string, array, object, end, field, get, items, as_array, and_then,
}
use pingora_mesh.SiteConfig.{map_some, parse_upstreams, parse_routes, parse_cache_rules}
use pingora_mesh.ReleasePlanner.{build_release_version}
use pingora_mesh.Domain.{Uuid, DateTime, SiteSpec, ReleaseTarget}
use pingora_mesh.ConfigCompiler.{CompiledConfigBundle, compile_site_bundle, json_int, to_items}
use pingora_mesh.Failover.Snapshot.{SiteSnapshot, SiteBindingSnapshot, PolicySnapshot}
use pingora_mesh.Failover.Bindings.{build_switched_bindings, select_next_policy_standby}
use pingora_mesh.Failover.Dns.{
  Parsers, DnsFailoverPlan, build_dns_failover_plan, dns_failover_plan_to_json,
}
use pingora_mesh.Failover.Operations.{
  PostSwitchOperationSpec, LoadedOperationTemplate, parse_post_switch_operation,
  find_operation_template,
}
use pingora_mesh.Failover.Tables.{
  Tables, BindingRow, PolicyRow, ReleaseRow, ReleaseStatusRow, SiteRow, AuditLogRow,
  NodeOperationRow,
}
use pingora_mesh.Failover.Database.{Act, query, execute, transaction, for_each}
use pingora_mesh.Failover.Load.{load_dns_zone_snapshots, load_site_certificates}
use pingora_mesh.Failover.Apply.{apply_dns_failover}

module _ (library : Library) (draw : FailoverDraw) (policy : PolicySnapshot) where
  abbrev pub operation_row :
      Uuid → PostSwitchOperationSpec → LoadedOperationTemplate → DateTime → ℕ → NodeOperationRow
  operation_row event_id spec template now queued = record {
    id = draw.operation_id queued;
    node_id = spec.node_id;
    template_id = template.id;
    event_id = event_id;
    input_params = spec.input_params;
    exec_status = "approved";
    requested_by = "system:failover-worker";
    approved_by = "system:failover-worker";
    created_at = now;
  }

  unfoldable pub insert_operation :
      Uuid → PostSwitchOperationSpec → LoadedOperationTemplate → DateTime → ℕ → Act ℕ
  insert_operation event_id spec template now queued = do
    execute (λ tables. record tables {
      node_operations =
          tables.node_operations ++ operation_row event_id spec template now queued ∷ [];
    })
    pure (queued + 1)

  -- A template that is missing, or that wants an approval, is passed over.
  abbrev pub enqueue_with :
      Uuid → PostSwitchOperationSpec → DateTime → ℕ → Option LoadedOperationTemplate → Act ℕ
  enqueue_with event_id spec now queued none world = pure queued world
  enqueue_with event_id spec now queued (some template) world =
      if template.approval_required
      then pure queued world
      else insert_operation event_id spec template now queued world

  abbrev pub enqueue_item : Uuid → DateTime → ℕ → Option PostSwitchOperationSpec → Act ℕ
  enqueue_item event_id now queued none = pure queued
  enqueue_item event_id now queued (some spec) = do
    template ← query (λ tables.
        find_operation_template spec.template_id spec.template_name tables.operation_templates)
    enqueue_with event_id spec now queued template

  unfoldable pub enqueue_items : Uuid → DateTime → ℕ → List Value → Act ℕ
  enqueue_items event_id now queued [] = pure queued
  enqueue_items event_id now queued (item ∷ rest) = do
    queued' ←
        enqueue_item event_id now queued (parse_post_switch_operation library.parsers item policy)
    enqueue_items event_id now queued' rest

  unfoldable pub enqueue_post_switch_operations : Uuid → DateTime → Act ℕ
  enqueue_post_switch_operations event_id now =
      elim (and_then (get "post_switch_operations" policy.precheck_policy) as_array) [
        | none ↦ pure 0
        | some listed ↦ enqueue_items event_id now 0 listed
      ]

  unfoldable pub binding_to_json : SiteBindingSnapshot → Value
  binding_to_json b = object (
      field "node_id" (string (library.parsers.uuid_text b.node_id)) (
        field "node_code" (string b.node_code) (
          field "node_status" (string b.node_status) (
            field "binding_role" (string b.binding_role)
              (field "priority" (json_int b.priority) end)))))

  abbrev pub bindings_json : List SiteBindingSnapshot → Value
  bindings_json bindings = array (to_items (map binding_to_json bindings))

  abbrev pub or_null : Option Value → Value
  or_null none = null
  or_null (some v) = v

  abbrev pub uuid_json : Uuid → Value
  uuid_json id = string (library.parsers.uuid_text id)

  abbrev pub audit_row :
      SiteSnapshot
      → List SiteBindingSnapshot
      → Option DnsFailoverPlan
      → Option Uuid
      → String
      → DateTime
      → AuditLogRow
  audit_row site switched plan next_policy_standby release_version now = record {
    operator_id = "system:failover-worker";
    action = "failover_switch";
    resource_type = "site";
    resource_id = library.parsers.uuid_text site.site_id;
    before_data = object (
        field "primary_node_id" (uuid_json policy.primary_node_id) (
          field "standby_node_id" (uuid_json policy.standby_node_id)
            (field "bindings" (bindings_json site.bindings) end)));
    after_data = object (
        field "release_id" (uuid_json draw.release_id) (
          field "release_version" (string release_version) (
            field "bindings" (bindings_json switched) (
              field "dns_failover"
                (or_null (map_some (dns_failover_plan_to_json library.parsers) plan))
                (field "next_policy_primary_node_id" (uuid_json policy.standby_node_id) (
                  field "next_policy_standby_node_id"
                    (or_null (map_some uuid_json next_policy_standby)) end))))));
    created_at = now;
  }

  abbrev pub site_spec : SiteSnapshot → SiteSpec
  site_spec site =
      let upstreams = parse_upstreams site.config in
      record {
        id = site.site_id;
        site_code = site.site_code;
        name = site.name;
        domain = site.domain;
        listen_port = site.listen_port;
        protocol = site.protocol;
        tls_enabled = site.tls_enabled;
        status = site.status;
        upstreams = upstreams;
        routes = parse_routes site.config upstreams;
        cache_rules = parse_cache_rules library.to_lowercase site.config;
      }

  abbrev pub release_row : SiteSnapshot → CompiledConfigBundle → String → DateTime → ReleaseRow
  release_row site bundle release_version now = record {
    id = bundle.manifest.release_id;
    release_code = library.parsers.uuid_text bundle.manifest.release_id;
    scope_type = "site";
    scope_id = site.site_id;
    release_type = "failover";
    release_version = release_version;
    manifest_json = bundle;
    manifest_hash = bundle.manifest.config_hash;
    reason =
        "automatic failover " <> policy.primary_node_code <> " -> " <> policy.standby_node_code
        <> " for site " <> site.site_code;
    status = "pending";
    published_at = now;
    created_by = "system:failover-worker";
  }

  -- `if let Some(plan)`
  abbrev pub apply_plan : Option DnsFailoverPlan → Uuid → DateTime → Act (Unit {0})
  apply_plan none event_id now = pure tt
  apply_plan (some plan) event_id now =
      apply_dns_failover library.parsers.uuid_text library.parse_json draw.record_id draw.log_id
        plan event_id now

  abbrev pub insert_audit : AuditLogRow → Act (Unit {0})
  insert_audit row =
      execute (λ tables. record tables { audit_logs = tables.audit_logs ++ row ∷ [] })

  abbrev pub switched_of : SiteSnapshot → List SiteBindingSnapshot
  switched_of site =
      build_switched_bindings library.parsers.uuid_text site.bindings policy.primary_node_id
        policy.standby_node_id

  -- What follows the new bindings, up to the commit.
  unfoldable pub release_statements :
      SiteSnapshot
      → Option DnsFailoverPlan
      → List SiteBindingSnapshot
      → (event_id : Uuid) (now : DateTime) → Act (Unit {0})
  release_statements site plan switched event_id now = do
    next_policy_standby ← advance_failover_policy policy switched
    certificates ← load_site_certificates site.site_id
    ensure (not (is_empty switched)) (no_targets site)
    let release_version =
        build_release_version library.timestamp "failover" now (library.timestamp_millis now)
    bundle ← lift (
        compile_site_bundle library.parsers.uuid_text draw.release_id draw.compiled_at
          (site_spec site) certificates (map (target_of site) switched) release_version)
    insert_release (release_row site bundle release_version now)
    for_each (insert_status bundle.manifest.release_id release_version) switched
    publish_site site.site_id
    apply_plan plan event_id now
    insert_audit (audit_row site switched plan next_policy_standby release_version now)
    operation_count ← enqueue_post_switch_operations event_id now
    pure tt

  -- The statements between `begin` and `commit`.
  unfoldable pub switch_statements :
      SiteSnapshot → (event_id : Uuid) (now : DateTime) → Act (Unit {0})
  switch_statements site event_id now = do
    dns_zones ← load_dns_zone_snapshots
    plan ← lift (build_dns_failover_plan library.parsers site policy dns_zones)
    save_site_bindings site.site_id (switched_of site)
    release_statements site plan (switched_of site) event_id now

  unfoldable pub execute_site_failover :
      SiteSnapshot → (event_id : Uuid) (now : DateTime) → Act (Unit {0})
  execute_site_failover site event_id now = transaction (switch_statements site event_id now)
