-- ===== src/Hub/Records.antt =====
-- The rows of apps/hub-api/src/store.rs. A float is kept as its bits: nothing computes with it.
use pingora_mesh.Base.{ℕ, String, Bool, Option, List}
use pingora_mesh.Base.Int.{ℤ}
use pingora_mesh.Base.Map.{Map}
use pingora_mesh.Json.{Value}
use pingora_mesh.Domain.{Uuid, DateTime, NodeIdentity, NodeRuntimeState, Protocol, SiteStatus}
use pingora_mesh.ConfigCompiler.{CompiledConfigBundle}

pub record NodeRecord : Type 0 where
  pub identity : NodeIdentity
  pub runtime : NodeRuntimeState
  pub labels : Value
  pub hostname : Option String
  pub public_ip : Option String
  pub private_ip : Option String
  pub bootstrap_token : Option String
  pub pingora_version : Option String
  pub agent_version : Option String

pub record HeartbeatRecord : Type 0 where
  pub node_id : Uuid
  pub pingora_version : String
  pub agent_version : String
  pub active_config_version : Option String
  pub site_count : ℕ
  pub cpu_usage : ℕ
  pub mem_usage : ℕ
  pub disk_usage : ℕ
  pub health_score : ℕ
  pub reported_at : DateTime

pub record SiteBindingRecord : Type 0 where
  pub node_id : Uuid
  pub binding_role : String
  pub priority : ℤ

pub record SiteRecord : Type 0 where
  pub id : Uuid
  pub site_code : String
  pub name : String
  pub domain : String
  pub listen_port : ℕ
  pub protocol : Protocol
  pub tls_enabled : Bool
  pub status : SiteStatus
  pub version : ℕ
  pub config : Value
  pub bindings : List SiteBindingRecord

pub record NodeAckRecord : Type 0 where
  pub apply_status : String
  pub current_version : Option String
  pub message : Option String
  pub acked_at : Option DateTime

pub record ReleaseRecord : Type 0 where
  pub release_id : Uuid
  pub scope_type : String
  pub scope_id : Option Uuid
  pub release_type : String
  pub release_version : String
  pub reason : String
  pub status : String
  pub bundle : CompiledConfigBundle
  pub target_node_ids : List Uuid
  pub ack_status : Map Uuid NodeAckRecord
  pub created_at : DateTime

pub record DnsProviderRecord : Type 0 where
  pub provider_id : Uuid
  pub name : String
  pub provider_type : String
  pub api_endpoint : Option String
  pub credential_encrypted : String
  pub status : String
  pub created_at : DateTime

pub record DnsZoneRecord : Type 0 where
  pub zone_id : Uuid
  pub provider_id : Uuid
  pub zone_name : String
  pub external_zone_id : String
  pub status : String
  pub created_at : DateTime

pub record CertificateRecord : Type 0 where
  pub certificate_id : Uuid
  pub cert_code : String
  pub common_name : String
  pub sans : List String
  pub fingerprint_sha256 : String
  pub status : String
  pub expires_at : Option DateTime
  pub created_at : DateTime

pub record CertificateOrderRecord : Type 0 where
  pub order_id : Uuid
  pub site_id : Option Uuid
  pub certificate_id : Option Uuid
  pub zone_id : Uuid
  pub order_type : String
  pub acme_provider : String
  pub challenge_type : String
  pub challenge_payload : Value
  pub order_status : String
  pub error_message : Option String
  pub certificate_expires_at : Option DateTime
  pub created_at : DateTime

pub record AdminUserRecord : Type 0 where
  pub user_id : Uuid
  pub username : String
  pub display_name : String
  pub password_hash : String
  pub status : String
  pub last_login_at : Option DateTime
  pub created_at : DateTime

pub record AdminSessionRecord : Type 0 where
  pub session_id : Uuid
  pub user_id : Uuid
  pub session_token_hash : String
  pub expires_at : DateTime
  pub created_at : DateTime
  pub last_seen_at : DateTime

pub record AdminSessionContext : Type 0 where
  pub user_id : Uuid
  pub username : String
  pub display_name : String
  pub status : String
  pub expires_at : DateTime

pub record OperationTemplateRecord : Type 0 where
  pub template_id : Uuid
  pub name : String
  pub operation_type : String
  pub command_template : String
  pub allowed_params : Value
  pub timeout_seconds : ℕ
  pub run_as_user : String
  pub approval_required : Bool
  pub created_at : DateTime

pub record NodeOperationRecord : Type 0 where
  pub operation_id : Uuid
  pub node_id : Uuid
  pub template_id : Uuid
  pub event_id : Option Uuid
  pub input_params : Value
  pub exec_status : String
  pub requested_by : String
  pub approved_by : Option String
  pub exit_code : Option ℤ
  pub stdout_log : Option String
  pub stderr_log : Option String
  pub started_at : Option DateTime
  pub finished_at : Option DateTime
  pub created_at : DateTime

pub record ClaimedNodeOperation : Type 0 where
  pub operation : NodeOperationRecord
  pub template : OperationTemplateRecord

pub record NodeDeleteGuard : Type 0 where
  pub bound_site_codes : List String
  pub failover_policy_count : ℕ
