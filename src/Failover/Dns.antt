-- ===== src/Failover/Dns.antt =====
-- The dns change that a failover makes: `build_dns_failover_plan` of
-- apps/failover-worker/src/main.rs. The parsers of `std` and of `uuid` are parameters.
pub mod Laws
use pingora_mesh.Base.{
  ℕ, min, max, String, Bool, false, not, ◌&&◌, ◌||◌, Option, none, some, List, ◌==◌, nat_eq,
  string_eq, leb, find, keep_if, max_by, Result, ok, err, ok_or, and_ok, require, if◌then◌else◌,
}
use pingora_mesh.Base.Text.{◌<>◌, trim, to_ascii_uppercase, ends_with, byte_length}
use pingora_mesh.Json.{
  Value, Fields, string, object, end, field, get, lookup, as_bool, as_str, as_u64, as_object,
  and_then, unwrap_or, filter_some,
}
use pingora_mesh.SiteConfig.{map_some}
use pingora_mesh.Domain.{Uuid}
use pingora_mesh.ConfigCompiler.{json_nat}
use pingora_mesh.DnsProvider.{DnsRecordChange}
use pingora_mesh.Failover.Snapshot.{PolicySnapshot, SiteSnapshot, DnsZoneSnapshot}

pub record DnsFailoverPlan : Type 0 where
  pub zone : DnsZoneSnapshot
  pub change : DnsRecordChange

-- What the worker takes from `std` and `uuid`.
pub record Parsers : Type 0 where
  pub uuid_text : Uuid → String
  pub parse_uuid : String → Option Uuid
  pub is_ipv4 : String → Bool
  pub is_ipv6 : String → Bool

-- A text that is not blank, trimmed.
abbrev pub non_blank : Option String → Option String
non_blank text = filter_some (λ value. not (value == "")) (map_some trim text)

abbrev pub text_of : String → Fields → Option String
text_of key config = and_then (lookup key config) as_str

unfoldable pub dns_failover_config : Value → Option Fields
dns_failover_config policy = and_then (get "dns_failover" policy) as_object

unfoldable pub domain_belongs_to_zone : String → String → Bool
domain_belongs_to_zone domain zone_name = domain == zone_name || ends_with domain ("." <> zone_name)

abbrev pub is_active : DnsZoneSnapshot → Bool
is_active zone = zone.status == "active"

abbrev pub is_zone_id : Uuid → DnsZoneSnapshot → Bool
is_zone_id zone_id zone = zone.zone_id == zone_id && is_active zone

abbrev pub is_zone_name : String → DnsZoneSnapshot → Bool
is_zone_name zone_name zone = zone.zone_name == zone_name && is_active zone

abbrev pub is_zone_of : String → DnsZoneSnapshot → Bool
is_zone_of domain zone = is_active zone && domain_belongs_to_zone domain zone.zone_name

abbrev pub le_zone_name : DnsZoneSnapshot → DnsZoneSnapshot → Bool
le_zone_name left right = leb (byte_length left.zone_name) (byte_length right.zone_name)

-- `u32::try_from`
abbrev pub to_u32 : ℕ → Option ℕ
to_u32 n = if leb n 4294967295 then some n else none

-- `.clamp(1, 86_400)`
abbrev pub ttl_of : Option ℕ → ℕ
ttl_of ttl = min (max (unwrap_or ttl 60) 1) 86400

abbrev pub planned_change :
    SiteSnapshot → Fields → (record_type standby_ip : String) → DnsZoneSnapshot → DnsFailoverPlan
planned_change site config record_type standby_ip zone = record {
  zone = zone;
  change = record {
    zone_id = some zone.external_zone_id;
    zone_name = zone.zone_name;
    record_type = record_type;
    host = unwrap_or (non_blank (text_of "host" config)) site.domain;
    value = standby_ip;
    ttl = ttl_of (and_then (and_then (lookup "ttl" config) as_u64) to_u32);
  };
}

module _ (parsers : Parsers) where
  unfoldable pub validate_dns_failover_target : String → String → Result String (Unit {0})
  validate_dns_failover_target record_type value =
      if record_type == "A"
      then require (parsers.is_ipv4 value) "dns failover A record requires standby public IPv4"
      else if record_type == "AAAA"
      then require (parsers.is_ipv6 value) "dns failover AAAA record requires standby public IPv6"
      else err "dns failover record_type must be A or AAAA"

  -- By name, or else by the domain: the zone with the longest name.
  unfoldable pub select_named_zone :
      String → Option String → List DnsZoneSnapshot → Result String DnsZoneSnapshot
  select_named_zone site_domain (some zone_name) zones =
      ok_or (find (is_zone_name zone_name) zones)
        ("dns failover zone_name " <> zone_name <> " is not active or not found")
  select_named_zone site_domain none zones =
      ok_or (max_by le_zone_name (keep_if (is_zone_of site_domain) zones))
        ("no active dns zone matches site domain " <> site_domain)

  unfoldable pub select_dns_failover_zone :
      String → Fields → List DnsZoneSnapshot → Result String DnsZoneSnapshot
  select_dns_failover_zone site_domain config zones =
      elim (and_then (text_of "zone_id" config) parsers.parse_uuid) [
        | some zone_id ↦
            ok_or (find (is_zone_id zone_id) zones) (
              "dns failover zone_id " <> parsers.uuid_text zone_id <> " is not active or not found")
        | none ↦ select_named_zone site_domain (non_blank (text_of "zone_name" config)) zones
      ]

  -- The plan where dns failover is on.
  unfoldable pub enabled_plan :
      SiteSnapshot → PolicySnapshot → Fields → List DnsZoneSnapshot → Result String DnsFailoverPlan
  enabled_plan site policy config zones =
      let record_type =
        to_ascii_uppercase (unwrap_or (non_blank (text_of "record_type" config)) "A") in
      and_ok
        (ok_or (non_blank policy.standby_public_ip) (
          "dns failover is enabled but standby node " <> policy.standby_node_code
          <> " has no public_ip"))
        (λ standby_ip. and_ok (validate_dns_failover_target record_type standby_ip) (λ _.
          and_ok (select_dns_failover_zone site.domain config zones)
            (λ zone. ok (planned_change site config record_type standby_ip zone))))

  unfoldable pub build_dns_failover_plan :
      SiteSnapshot → PolicySnapshot → List DnsZoneSnapshot → Result String (Option DnsFailoverPlan)
  build_dns_failover_plan site policy zones = elim (dns_failover_config policy.precheck_policy) [
    | none ↦ ok none
    | some config ↦
        if not (unwrap_or (and_then (lookup "enabled" config) as_bool) false)
        then ok none
        else and_ok (enabled_plan site policy config zones) (λ plan. ok (some plan))
  ]

  unfoldable pub dns_failover_plan_to_json : DnsFailoverPlan → Value
  dns_failover_plan_to_json plan = object (
      field "zone_id" (string (parsers.uuid_text plan.zone.zone_id)) (
        field "provider_id" (string (parsers.uuid_text plan.zone.provider_id)) (
          field "zone_name" (string plan.change.zone_name) (
            field "record_type" (string plan.change.record_type) (
              field "host" (string plan.change.host) (
                field "value" (string plan.change.value)
                  (field "ttl" (json_nat plan.change.ttl) end)))))))
