-- ===== src/Tests/Switch.antt =====
-- The failover worker on a database with one site: a switch, a switch that fails, a cycle.
use pingora_mesh.Base.{
  ◌+◌, ◌*◌, ◌≤◌, ◌++◌, ◌≡◌, ◌⊎◌, refl, String, true, false, none, some, List, [], ◌∷◌, map, arith,
  ok, err, any, count_if, keep_if, max_by, greatest_from, Memᴰ,
}
use pingora_mesh.Base.Int.{pos}
use pingora_mesh.Base.Text.{
  byte_length, ends_with, trim, trim_start_matches, trim_end_matches, to_ascii_uppercase, map_chars,
  translate, is_whitespace,
}
use pingora_mesh.Json.{bool, object, end, field, get, lookup}
use pingora_mesh.Domain.{Uuid}
use pingora_mesh.Lifecycle.{nanos}
use pingora_mesh.Failover.Snapshot.{
  PolicySnapshot, SiteBindingSnapshot, SiteSnapshot, DnsZoneSnapshot,
}
use pingora_mesh.Failover.Policy.{evaluate_policy, is_some}
use pingora_mesh.Failover.Dns.{
  Parsers, DnsFailoverPlan, build_dns_failover_plan, enabled_plan, dns_failover_config,
  select_dns_failover_zone, validate_dns_failover_target, select_named_zone, is_zone_of,
  domain_belongs_to_zone,
}
use pingora_mesh.Failover.Dns.Laws.{
  select_named_zone-longest, build_dns_failover_plan-valid, IsValidPlan,
}
use pingora_mesh.Failover.Tables.{Tables}
use pingora_mesh.Failover.Database.{World}
use pingora_mesh.Failover.Execute.{
  Library, FailoverDraw, is_elsewhere, binding_row, switched_of, execute_site_failover,
}
use pingora_mesh.Failover.Execute.Laws.{execute_site_failover-atomic}
use pingora_mesh.Failover.Run.{
  is_open_of, trigger_policy_failover, process_policies, process_failover_policies,
  FailoverRunSummary, switching_event,
}
use pingora_mesh.Failover.Run.Laws.{process_failover_policies-accounts}
use pingora_mesh.Failover.Run.Events.{trigger_policy_failover-open}
use pingora_mesh.Failover.Run.Open.{process_policies-one_open}

abbrev parsers : Parsers
parsers = record {
  uuid_text = λ id. "node";
  parse_uuid = λ text. none;
  is_ipv4 = λ text. true;
  is_ipv6 = λ text. false;
}

abbrev library : Library
library = record {
  parsers = parsers;
  parse_json = λ text. some (object end);
  timestamp = λ t. "20240101000000";
  timestamp_millis = λ t. 5;
  to_lowercase = λ text. text;
}

abbrev draw : FailoverDraw
draw = record {
  event_id = 90;
  release_id = 91;
  compiled_at = 1;
  record_id = 92;
  log_id = 93;
  operation_id = λ n. 94;
}

abbrev policy : PolicySnapshot
policy = record {
  policy_id = 70;
  scope_type = "site";
  scope_id = 7;
  primary_node_id = 1;
  standby_node_id = 2;
  trigger_mode = "auto";
  failure_threshold = 3;
  precheck_policy = object end;
  primary_node_code = "edge-1";
  standby_node_code = "edge-2";
  primary_status = "offline";
  standby_status = "online";
  standby_public_ip = some "192.0.2.2";
  primary_last_seen_at = none;
  primary_active_config_version = none;
  standby_active_config_version = none;
}

abbrev main : SiteBindingSnapshot
main = record {
  node_id = 1;
  node_code = "edge-1";
  node_status = "offline";
  binding_role = "primary";
  priority = pos 10;
}

abbrev spare : SiteBindingSnapshot
spare = record main {
  node_id = 2;
  node_code = "edge-2";
  node_status = "online";
  binding_role = "standby";
  priority = pos 20;
}

abbrev site : SiteSnapshot
site = record {
  site_id = 7;
  site_code = "shop";
  name = "Shop";
  domain = "shop.example.com";
  listen_port = 80;
  protocol = pingora_mesh.Domain.Protocol.http;
  tls_enabled = false;
  status = pingora_mesh.Domain.SiteStatus.published;
  config = object end;
  bindings = main ∷ spare ∷ [];
}

abbrev tables : Tables
tables = record {
  failover_policies = record { id = 70; primary_node_id = 1; standby_node_id = 2 } ∷ [];
  failover_events = [];
  sites =
      record {
        id = 7;
        site_code = "shop";
        name = "Shop";
        domain = "shop.example.com";
        listen_port = pos 80;
        protocol = "http";
        tls_enabled = false;
        status = "published";
      }
      ∷ [];
  site_configs = [];
  nodes =
      record { id = 1; node_code = "edge-1"; status = "offline" }
      ∷ record { id = 2; node_code = "edge-2"; status = "online" }
      ∷ [];
  site_node_bindings = binding_row 7 main ∷ binding_row 7 spare ∷ binding_row 8 main ∷ [];
  site_certificates = [];
  config_releases = [];
  node_release_status = [];
  dns_zones = [];
  dns_records = [];
  dns_change_logs = [];
  operation_templates = [];
  node_operations = [];
  audit_logs = [];
}

abbrev calm : World
calm = record { tables = tables; faults = []; sent = [] }

execute_site_failover-atomic_example :
    let (result, after) = execute_site_failover library draw policy site 90 5 calm in
    ((e : String) × (result ≡ err e) × (after.tables ≡ tables))
    ⊎ ((result ≡ ok tt)
        × (after.tables.site_node_bindings
            ≡ keep_if (is_elsewhere 7) tables.site_node_bindings
              ++ map (binding_row 7) (switched_of library draw policy site)))
execute_site_failover-atomic_example =
    execute_site_failover-atomic library draw policy site 90 5 calm

abbrev busy : World
busy = record calm {
  tables = record tables { failover_events = switching_event 80 policy 1 "earlier" ∷ [] };
}

nothing_twice :
    let (result, after) = trigger_policy_failover library draw policy 5 "down" busy in
    (after.tables ≡ busy.tables) × ((result ≡ ok false) ⊎ ((e : String) × (result ≡ err e)))
unfolding any
nothing_twice = trigger_policy_failover-open library draw policy 5 "down" busy refl

process_failover_policies-accounts_example :
    let summary =
      (process_failover_policies library (λ n. draw) (60 * nanos) 15 (policy ∷ []) calm).0 in
    (summary.scanned ≡ 1)
    × (summary.switched + summary.skipped + summary.failed ≡ 1)
    × (summary.eligible
        ≡ count_if
            (λ (p : PolicySnapshot). is_some (evaluate_policy p (60 * nanos) 15))
            (policy ∷ []))
process_failover_policies-accounts_example =
    process_failover_policies-accounts library (λ n. draw) (60 * nanos) 15 (policy ∷ []) calm

abbrev no_summary : FailoverRunSummary
no_summary = record { scanned = 1; eligible = 0; switched = 0; skipped = 0; failed = 0 }

process_policies-one_open_example :
    count_if
      (is_open_of 70)
      (process_policies library
        (λ n. draw)
        (60 * nanos)
        15
        0
        (policy ∷ [])
        no_summary
        busy).1.tables.failover_events
    ≤ 1
process_policies-one_open_example =
    process_policies-one_open library (λ n. draw) (60 * nanos) 15 70 0 (policy ∷ []) no_summary busy
      (omega arith)

abbrev zone : DnsZoneSnapshot
zone = record {
  zone_id = 31;
  provider_id = 32;
  provider_type = "cloudflare";
  api_endpoint = none;
  credential_encrypted = "{}";
  zone_name = "example.com";
  external_zone_id = "z-1";
  status = "active";
}

abbrev zones : List DnsZoneSnapshot
zones = zone ∷ record zone { zone_id = 33; zone_name = "other.org" } ∷ []

select_named_zone-longest_example :
    Memᴰ zone zones
    × (is_zone_of "shop.example.com" zone ≡ true)
    × ((other : DnsZoneSnapshot)
        → Memᴰ other zones
        → is_zone_of "shop.example.com" other ≡ true
        → byte_length other.zone_name ≤ byte_length zone.zone_name)
unfolding select_named_zone keep_if max_by greatest_from domain_belongs_to_zone ends_with
select_named_zone-longest_example =
    select_named_zone-longest parsers "shop.example.com" zones zone refl

abbrev dns_policy : PolicySnapshot
dns_policy = record policy {
  precheck_policy = object (field "dns_failover" (object (field "enabled" (bool true) end)) end);
}

abbrev plan : DnsFailoverPlan
plan = record {
  zone = zone;
  change = record {
    zone_id = some "z-1";
    zone_name = "example.com";
    record_type = "A";
    host = "shop.example.com";
    value = "192.0.2.2";
    ttl = 60;
  };
}

build_dns_failover_plan-valid_example : IsValidPlan parsers plan zones
unfolding build_dns_failover_plan enabled_plan dns_failover_config select_dns_failover_zone
    validate_dns_failover_target select_named_zone keep_if max_by greatest_from
    domain_belongs_to_zone ends_with get lookup trim trim_start_matches trim_end_matches
    to_ascii_uppercase map_chars translate is_whitespace
build_dns_failover_plan-valid_example =
    build_dns_failover_plan-valid parsers site dns_policy zones plan refl
