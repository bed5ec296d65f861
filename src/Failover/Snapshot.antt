-- ===== src/Failover/Snapshot.antt =====
-- The rows that the failover worker loads: policies, sites with their bindings, dns zones.
use pingora_mesh.Base.{ℕ, String, Bool, Option, List}
use pingora_mesh.Base.Int.{ℤ}
use pingora_mesh.Json.{Value}
use pingora_mesh.Domain.{Uuid, DateTime, Protocol, SiteStatus}

pub record PolicySnapshot : Type 0 where
  pub policy_id : Uuid
  pub scope_type : String
  pub scope_id : Uuid
  pub primary_node_id : Uuid
  pub standby_node_id : Uuid
  pub trigger_mode : String
  pub failure_threshold : ℕ
  pub precheck_policy : Value
  pub primary_node_code : String
  pub standby_node_code : String
  pub primary_status : String
  pub standby_status : String
  pub standby_public_ip : Option String
  pub primary_last_seen_at : Option DateTime
  pub primary_active_config_version : Option String
  pub standby_active_config_version : Option String

pub record SiteBindingSnapshot : Type 0 where
  pub node_id : Uuid
  pub node_code : String
  pub node_status : String
  pub binding_role : String
  pub priority : ℤ

pub record SiteSnapshot : Type 0 where
  pub site_id : Uuid
  pub site_code : String
  pub name : String
  pub domain : String
  pub listen_port : ℕ
  pub protocol : Protocol
  pub tls_enabled : Bool
  pub status : SiteStatus
  pub config : Value
  pub bindings : List SiteBindingSnapshot

pub record DnsZoneSnapshot : Type 0 where
  pub zone_id : Uuid
  pub provider_id : Uuid
  pub provider_type : String
  pub api_endpoint : Option String
  pub credential_encrypted : String
  pub zone_name : String
  pub external_zone_id : String
  pub status : String
