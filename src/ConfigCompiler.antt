-- ===== src/ConfigCompiler.antt =====
-- crates/config-compiler: the bundle that a release carries. The release id and the time are
-- arguments; so is the text of a `Uuid`. JSON objects are written as `serde` derives them.
use pingora_mesh.Base.{
  ℕ, String, List, [], ◌∷◌, map, ◌==◌, string_eq, if◌then◌else◌, Result, ok, err,
}
use pingora_mesh.Base.Int.{ℤ, pos, negsuc}
use pingora_mesh.Base.Text.{◌<>◌, trim}
use pingora_mesh.Json.{
  Value, Items, bool, number, string, array, object, nil, cons, end, field, pos_int, neg_int,
}
use pingora_mesh.Domain.{
  Uuid, DateTime, SiteStatus, Protocol, UpstreamEndpoint, UpstreamBalanceMethod, Upstream,
  RouteMatchType, SiteRoute, CacheRule, SiteSpec, CertificateRef, ReleaseTarget, ReleaseManifest,
}

pub record CompiledConfigBundle : Type 0 where
  pub manifest : ReleaseManifest
  pub rendered_config : Value
  pub certificates : List CertificateRef
  pub signature : String

abbrev pub to_items : List Value → Items
to_items [] = nil
to_items (v ∷ vs) = cons v (to_items vs)

abbrev pub json_nat : ℕ → Value
json_nat n = number (pos_int n)

abbrev pub json_int : ℤ → Value
json_int (pos n) = number (pos_int n)
json_int (negsuc n) = number (neg_int n)

abbrev pub status_json : SiteStatus → Value
status_json SiteStatus.draft = string "draft"
status_json SiteStatus.published = string "published"
status_json SiteStatus.disabled = string "disabled"

abbrev pub protocol_json : Protocol → Value
protocol_json Protocol.http = string "http"
protocol_json Protocol.https = string "https"
protocol_json Protocol.tcp = string "tcp"

abbrev pub balance_json : UpstreamBalanceMethod → Value
balance_json UpstreamBalanceMethod.round_robin = string "round_robin"
balance_json UpstreamBalanceMethod.weighted_round_robin = string "weighted_round_robin"
balance_json UpstreamBalanceMethod.least_connections = string "least_connections"
balance_json UpstreamBalanceMethod.ip_hash = string "ip_hash"

abbrev pub match_json : RouteMatchType → Value
match_json RouteMatchType.path_prefix = string "path_prefix"
match_json RouteMatchType.path_exact = string "path_exact"

abbrev pub endpoint_json : UpstreamEndpoint → Value
endpoint_json e = object (
    field "address" (string e.address) (
      field "weight" (json_nat e.weight)
        (field "active" (bool e.active) (field "backup" (bool e.backup) end))))

abbrev pub upstream_json : Upstream → Value
upstream_json u = object (
    field "name" (string u.name) (
      field "balance_method" (balance_json u.balance_method)
        (field "endpoints" (array (to_items (map endpoint_json u.endpoints))) end)))

abbrev pub route_json : SiteRoute → Value
route_json r = object (
    field "name" (string r.name) (
      field "enabled" (bool r.enabled) (
        field "match_type" (match_json r.match_type) (
          field "path" (string r.path) (
            field "upstream" (string r.upstream) (
              field "priority" (json_int r.priority)
                (field "strip_prefix" (bool r.strip_prefix) end)))))))

abbrev pub cache_rule_json : CacheRule → Value
cache_rule_json c = object (
    field "name" (string c.name) (
      field "match_extensions" (array (to_items (map string c.match_extensions))) (
        field "expires_seconds" (json_nat c.expires_seconds)
          (field "cache_control" (string c.cache_control) end))))

unfoldable pub rendered_site : SiteSpec → Value
rendered_site site = object (
    field "site_code" (string site.site_code) (
      field "status" (status_json site.status) (
        field "domain" (string site.domain) (
          field "listen_port" (json_nat site.listen_port) (
            field "protocol" (protocol_json site.protocol) (
              field "tls_enabled" (bool site.tls_enabled) (
                field "upstreams" (array (to_items (map upstream_json site.upstreams))) (
                  field "routes" (array (to_items (map route_json site.routes))) (
                    field "cache_rules" (array (to_items (map cache_rule_json site.cache_rules)))
                      end)))))))))

module _ (uuid_text : Uuid → String) where
  unfoldable pub signature_for_release : String → Uuid → String
  signature_for_release release_version release_id =
      "sig:" <> release_version <> ":" <> uuid_text release_id

  unfoldable pub compile_site_bundle :
      (release_id : Uuid) (now : DateTime)
      → SiteSpec
      → List CertificateRef
      → List ReleaseTarget
      → String
      → Result String CompiledConfigBundle
  compile_site_bundle release_id now site certificates targets release_version =
      if trim site.domain == ""
      then err "site domain cannot be empty"
      else ok (record {
        manifest = record {
          release_id = release_id;
          release_version = release_version;
          scope = "site";
          config_hash = "sha256:" <> site.name <> ":" <> release_version;
          created_at = now;
          sites = site ∷ [];
          certificates = certificates;
          targets = targets;
        };
        rendered_config = rendered_site site;
        certificates = certificates;
        signature = signature_for_release release_version release_id;
      })

  unfoldable pub rendered_cleanup : SiteSpec → Value
  rendered_cleanup site = object (
      field "sites" (array nil) (
        field "cleanup"
          (object (
            field "site_ids" (array (cons (string (uuid_text site.id)) nil)) (
              field "site_codes" (array (cons (string site.site_code) nil))
                (field "domains" (array (cons (string site.domain) nil)) end))))
          end))

  unfoldable pub compile_site_cleanup_bundle :
      (release_id : Uuid) (now : DateTime)
      → SiteSpec
      → List ReleaseTarget
      → String
      → Result String CompiledConfigBundle
  compile_site_cleanup_bundle release_id now site targets release_version =
      if trim site.site_code == ""
      then err "site code cannot be empty"
      else ok (record {
        manifest = record {
          release_id = release_id;
          release_version = release_version;
          scope = "site_cleanup";
          config_hash = "sha256:cleanup:" <> site.site_code <> ":" <> release_version;
          created_at = now;
          sites = [];
          certificates = [];
          targets = targets;
        };
        rendered_config = rendered_cleanup site;
        certificates = [];
        signature = signature_for_release release_version release_id;
      })
