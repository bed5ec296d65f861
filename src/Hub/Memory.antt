-- ===== src/Hub/Memory.antt =====
-- `MemoryRepository` of apps/hub-api/src/store.rs: the state, and an operation in the children for
-- each method. A method takes the lock for its whole body, so it is one step on the state, and it
-- never fails.
pub mod Nodes
pub mod Operations
pub mod Admin
pub mod Dns
pub mod Releases
pub mod Sites
pub mod ReleaseStatus
use pingora_mesh.Base.{String, List}
use pingora_mesh.Base.Map.{Map, empty}
use pingora_mesh.Domain.{Uuid, CertificateRef}
use pingora_mesh.Hub.Records.{
  NodeRecord, SiteRecord, ReleaseRecord, DnsProviderRecord, DnsZoneRecord, CertificateRecord,
  CertificateOrderRecord, AdminUserRecord, AdminSessionRecord, OperationTemplateRecord,
  NodeOperationRecord,
}

pub record MemoryState : Type 0 where
  pub nodes : Map Uuid NodeRecord
  pub node_ids_by_code : Map String Uuid
  pub sites : Map Uuid SiteRecord
  pub site_ids_by_code : Map String Uuid
  pub releases : Map Uuid ReleaseRecord
  pub release_ids_by_version : Map String Uuid
  pub latest_release_by_node : Map Uuid Uuid
  pub dns_providers : Map Uuid DnsProviderRecord
  pub dns_provider_ids_by_name : Map String Uuid
  pub dns_zones : Map Uuid DnsZoneRecord
  pub certificates : Map Uuid CertificateRecord
  pub site_certificates : Map Uuid (List CertificateRef)
  pub certificate_orders : Map Uuid CertificateOrderRecord
  pub admin_users : Map Uuid AdminUserRecord
  pub admin_user_ids_by_username : Map String Uuid
  pub admin_sessions : Map String AdminSessionRecord
  pub operation_templates : Map Uuid OperationTemplateRecord
  pub operation_template_ids_by_name : Map String Uuid
  pub node_operations : Map Uuid NodeOperationRecord

abbrev pub no_state : MemoryState
no_state = record {
  nodes = empty;
  node_ids_by_code = empty;
  sites = empty;
  site_ids_by_code = empty;
  releases = empty;
  release_ids_by_version = empty;
  latest_release_by_node = empty;
  dns_providers = empty;
  dns_provider_ids_by_name = empty;
  dns_zones = empty;
  certificates = empty;
  site_certificates = empty;
  certificate_orders = empty;
  admin_users = empty;
  admin_user_ids_by_username = empty;
  admin_sessions = empty;
  operation_templates = empty;
  operation_template_ids_by_name = empty;
  node_operations = empty;
}
