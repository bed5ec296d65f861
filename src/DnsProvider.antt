-- ===== src/DnsProvider.antt =====
-- crates/dns-provider: which provider a configuration builds, and the name of a record at cloudflare.
-- The conversation over http is not modelled.
use pingora_mesh.Base.{
  ℕ, String, not, ◌||◌, Option, ◌==◌, string_eq, Result, ok, err, ok_or, and_ok, if◌then◌else◌,
}
use pingora_mesh.Base.Text.{◌<>◌, trim, ends_with}
use pingora_mesh.Json.{Value, get, as_str, and_then, filter_some, unwrap_or}

pub record DnsRecordChange : Type 0 where
  pub zone_id : Option String
  pub zone_name : String
  pub record_type : String
  pub host : String
  pub value : String
  pub ttl : ℕ

pub record ProviderConfig : Type 0 where
  pub provider_type : String
  pub api_endpoint : Option String
  pub credentials : Value

pub record CloudflareConfig : Type 0 where
  pub api_token : String
  pub api_base : String

-- The providers behind `dyn DnsProvider`.
pub data Provider : Type 0 where
  cloudflare : CloudflareConfig → Provider
  noop : Provider

unfoldable pub from_provider_config : ProviderConfig → Result String CloudflareConfig
from_provider_config config =
    and_ok
      (ok_or
        (filter_some (λ value. not (trim value == ""))
          (and_then (get "api_token" config.credentials) as_str))
        "cloudflare api_token is required")
      (λ api_token. ok (record {
        api_token = api_token;
        api_base = unwrap_or config.api_endpoint "https://api.cloudflare.com/client/v4";
      }))

unfoldable pub build_provider : ProviderConfig → Result String Provider
build_provider config =
    if config.provider_type == "cloudflare"
    then and_ok (from_provider_config config)
        (λ cloudflare_config. ok (cloudflare cloudflare_config))
    else if config.provider_type == "noop" || config.provider_type == "custom"
    then ok noop
    else err ("unsupported dns provider type: " <> config.provider_type)

unfoldable pub normalize_record_name : String → String → String
normalize_record_name host zone_name =
    if host == "@"
    then zone_name
    else if ends_with host zone_name
    then host
    else host <> "." <> zone_name
