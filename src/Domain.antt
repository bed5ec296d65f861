-- ===== src/Domain.antt =====
-- crates/domain: the types that the components exchange. A `Uuid` is its number, and a
-- `DateTime<Utc>` the number of nanoseconds since the earliest instant.
use pingora_mesh.Base.{ℕ, String, Bool, Option, List}
use pingora_mesh.Base.Int.{ℤ}

abbrev pub Uuid : Type 0
Uuid = ℕ

abbrev pub DateTime : Type 0
DateTime = ℕ

pub data NodeStatus : Type 0 where
  pending online suspect offline maintenance : NodeStatus

pub record NodeIdentity : Type 0 where
  pub id : Uuid
  pub node_code : String
  pub name : String
  pub region : String
  pub idc : String
  pub status : NodeStatus

pub record NodeRuntimeState : Type 0 where
  pub active_config_version : Option String
  pub last_seen_at : Option DateTime
  pub site_count : ℕ
  pub health_score : ℕ

pub data SiteStatus : Type 0 where
  draft published disabled : SiteStatus

pub data Protocol : Type 0 where
  http https tcp : Protocol

pub record UpstreamEndpoint : Type 0 where
  pub address : String
  pub weight : ℕ
  pub active : Bool
  pub backup : Bool

pub data UpstreamBalanceMethod : Type 0 where
  round_robin weighted_round_robin least_connections ip_hash : UpstreamBalanceMethod

pub record Upstream : Type 0 where
  pub name : String
  pub balance_method : UpstreamBalanceMethod
  pub endpoints : List UpstreamEndpoint

pub data RouteMatchType : Type 0 where
  path_prefix path_exact : RouteMatchType

pub record SiteRoute : Type 0 where
  pub name : String
  pub enabled : Bool
  pub match_type : RouteMatchType
  pub path : String
  pub upstream : String
  pub priority : ℤ
  pub strip_prefix : Bool

pub record CacheRule : Type 0 where
  pub name : String
  pub match_extensions : List String
  pub expires_seconds : ℕ
  pub cache_control : String

pub record SiteSpec : Type 0 where
  pub id : Uuid
  pub site_code : String
  pub name : String
  pub domain : String
  pub listen_port : ℕ
  pub protocol : Protocol
  pub tls_enabled : Bool
  pub status : SiteStatus
  pub upstreams : List Upstream
  pub routes : List SiteRoute
  pub cache_rules : List CacheRule

pub record CertificateRef : Type 0 where
  pub certificate_id : Uuid
  pub version : ℤ
  pub common_name : String
  pub sans : List String
  pub expires_at : Option DateTime
  pub cert_pem : String
  pub key_pem_encrypted : String
  pub chain_pem : Option String

pub record ReleaseTarget : Type 0 where
  pub node_id : Uuid
  pub site_ids : List Uuid
  pub preheated : Bool

pub record ReleaseManifest : Type 0 where
  pub release_id : Uuid
  pub release_version : String
  pub scope : String
  pub config_hash : String
  pub created_at : DateTime
  pub sites : List SiteSpec
  pub certificates : List CertificateRef
  pub targets : List ReleaseTarget
