-- ===== src/Failover/Tables.antt =====
-- The tables that the failover worker reads and writes, with the columns that its statements name,
-- less the `created_at` and `updated_at` that the database fills in by itself.
use pingora_mesh.Base.{ℕ, String, Bool, Option, List}
use pingora_mesh.Base.Int.{ℤ}
use pingora_mesh.Json.{Value}
use pingora_mesh.Domain.{Uuid, DateTime, CertificateRef}
use pingora_mesh.ConfigCompiler.{CompiledConfigBundle}
use pingora_mesh.Failover.Snapshot.{DnsZoneSnapshot}
use pingora_mesh.Failover.Operations.{LoadedOperationTemplate}

pub record SiteRow : Type 0 where
  pub id : Uuid
  pub site_code : String
  pub name : String
  pub domain : String
  pub listen_port : ℤ
  pub protocol : String
  pub tls_enabled : Bool
  pub status : String

pub record SiteConfigRow : Type 0 where
  pub site_id : Uuid
  pub version : ℤ
  pub config_json : Value

pub record NodeRow : Type 0 where
  pub id : Uuid
  pub node_code : String
  pub status : String

pub record BindingRow : Type 0 where
  pub site_id : Uuid
  pub node_id : Uuid
  pub status : String
  pub bind_mode : String
  pub binding_role : String
  pub priority : ℤ

pub record EventRow : Type 0 where
  pub id : Uuid
  pub policy_id : Uuid
  pub site_id : Uuid
  pub source_node_id : Uuid
  pub target_node_id : Uuid
  pub trigger_reason : String
  pub event_status : String
  pub started_at : DateTime
  pub finished_at : Option DateTime

-- `manifest_json` is kept as the bundle that it serialises.
pub record ReleaseRow : Type 0 where
  pub id : Uuid
  pub release_code : String
  pub scope_type : String
  pub scope_id : Uuid
  pub release_type : String
  pub release_version : String
  pub manifest_json : CompiledConfigBundle
  pub manifest_hash : String
  pub reason : String
  pub status : String
  pub published_at : DateTime
  pub created_by : String

pub record ReleaseStatusRow : Type 0 where
  pub release_id : Uuid
  pub node_id : Uuid
  pub target_version : String
  pub current_version : Option String
  pub apply_status : String
  pub apply_message : String
  pub acked_at : Option DateTime

pub record DnsRecordRow : Type 0 where
  pub id : Uuid
  pub zone_id : Uuid
  pub record_type : String
  pub host : String
  pub value : String
  pub ttl : ℕ
  pub status : String
  pub last_synced_at : DateTime
  pub updated_at : DateTime

pub record DnsChangeLogRow : Type 0 where
  pub id : Uuid
  pub zone_id : Uuid
  pub record_id : Uuid
  pub change_type : String
  pub before_data : Option Value
  pub after_data : Value
  pub change_status : String
  pub operator_id : String
  pub created_at : DateTime

pub record NodeOperationRow : Type 0 where
  pub id : Uuid
  pub node_id : Uuid
  pub template_id : Uuid
  pub event_id : Uuid
  pub input_params : Value
  pub exec_status : String
  pub requested_by : String
  pub approved_by : String
  pub created_at : DateTime

pub record AuditLogRow : Type 0 where
  pub operator_id : String
  pub action : String
  pub resource_type : String
  pub resource_id : String
  pub before_data : Value
  pub after_data : Value
  pub created_at : DateTime

-- `failover_policies`, less the columns that only the evaluation of a policy reads.
pub record PolicyRow : Type 0 where
  pub id : Uuid
  pub primary_node_id : Uuid
  pub standby_node_id : Uuid

-- A default certificate of a site, as its query joins it, the latest binding first.
pub record SiteCertificateRow : Type 0 where
  pub site_id : Uuid
  pub certificate : CertificateRef

-- `dns_zones` holds the active zones of active providers, in the order of their query: neither
-- table is written here.
pub record Tables : Type 0 where
  pub failover_policies : List PolicyRow
  pub failover_events : List EventRow
  pub sites : List SiteRow
  pub site_configs : List SiteConfigRow
  pub nodes : List NodeRow
  pub site_node_bindings : List BindingRow
  pub site_certificates : List SiteCertificateRow
  pub config_releases : List ReleaseRow
  pub node_release_status : List ReleaseStatusRow
  pub dns_zones : List DnsZoneSnapshot
  pub dns_records : List DnsRecordRow
  pub dns_change_logs : List DnsChangeLogRow
  pub operation_templates : List LoadedOperationTemplate
  pub node_operations : List NodeOperationRow
  pub audit_logs : List AuditLogRow
