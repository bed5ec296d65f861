-- ===== src/Failover/Apply.antt =====
-- The dns part of a failover: `apply_dns_failover` of apps/failover-worker/src/main.rs.
use pingora_mesh.Base.{
  ℕ, String, Bool, ◌&&◌, Option, none, some, [], ◌∷◌, ◌++◌, map, ◌==◌, nat_eq, string_eq, leb,
  keep_if, max_by, min, map_err, Result, ◌>>=◌, ◌>>◌, lift, pure, if◌then◌else◌,
}
use pingora_mesh.Base.Text.{◌<>◌}
use pingora_mesh.Json.{Value, string, object, end, field}
use pingora_mesh.SiteConfig.{map_some}
use pingora_mesh.Domain.{Uuid, DateTime}
use pingora_mesh.ConfigCompiler.{json_nat}
use pingora_mesh.DnsProvider.{
  DnsRecordChange, ProviderConfig, Provider, cloudflare, noop, build_provider,
}
use pingora_mesh.Failover.Snapshot.{DnsZoneSnapshot}
use pingora_mesh.Failover.Dns.{DnsFailoverPlan}
use pingora_mesh.Failover.Tables.{DnsRecordRow}
use pingora_mesh.Failover.Database.{Act, query, execute, send, with_context}

pub record DnsRecordSnapshot : Type 0 where
  pub record_id : Uuid
  pub value : String
  pub ttl : ℕ

abbrev pub is_record_of : DnsFailoverPlan → DnsRecordRow → Bool
is_record_of plan row =
    row.zone_id == plan.zone.zone_id
    && row.record_type == plan.change.record_type
    && row.host == plan.change.host
    && row.status == "active"

abbrev pub le_updated : DnsRecordRow → DnsRecordRow → Bool
le_updated a b = leb a.updated_at b.updated_at

abbrev pub record_of : DnsRecordRow → DnsRecordSnapshot
record_of row = record { record_id = row.id; value = row.value; ttl = row.ttl }

unfoldable pub load_dns_record_snapshot : DnsFailoverPlan → Act (Option DnsRecordSnapshot)
load_dns_record_snapshot plan = query (λ tables.
    map_some record_of (max_by le_updated (keep_if (is_record_of plan) tables.dns_records)))

-- `i32::try_from(ttl).unwrap_or(i32::MAX)`
abbrev pub ttl_column : ℕ → ℕ
ttl_column ttl = min ttl 2147483647

abbrev pub synced : Uuid → DnsRecordChange → DateTime → DnsRecordRow → DnsRecordRow
synced record_id change now row =
    if row.id == record_id
    then record row {
      value = change.value;
      ttl = ttl_column change.ttl;
      last_synced_at = now;
      updated_at = now;
    }
    else row

abbrev pub new_record : Uuid → DnsFailoverPlan → DateTime → DnsRecordRow
new_record record_id plan now = record {
  id = record_id;
  zone_id = plan.zone.zone_id;
  record_type = plan.change.record_type;
  host = plan.change.host;
  value = plan.change.value;
  ttl = ttl_column plan.change.ttl;
  status = "active";
  last_synced_at = now;
  updated_at = now;
}

-- A new row draws its id.
unfoldable pub upsert_dns_record_snapshot :
    (new_id : Uuid) → DnsFailoverPlan → Option DnsRecordSnapshot → (now : DateTime) → Act Uuid
upsert_dns_record_snapshot new_id plan (some existing) now = do
  execute (λ tables. record tables {
    dns_records = map (synced existing.record_id plan.change now) tables.dns_records;
  })
  pure existing.record_id
upsert_dns_record_snapshot new_id plan none now = do
  execute (λ tables. record tables {
    dns_records = tables.dns_records ++ new_record new_id plan now ∷ [];
  })
  pure new_id

module _ (uuid_text : Uuid → String) where
  abbrev pub record_before : DnsFailoverPlan → DnsRecordSnapshot → Value
  record_before plan existing = object (
      field "record_id" (string (uuid_text existing.record_id)) (
        field "zone_id" (string (uuid_text plan.zone.zone_id)) (
          field "record_type" (string plan.change.record_type) (
            field "host" (string plan.change.host)
              (field "value" (string existing.value) (field "ttl" (json_nat existing.ttl) end))))))

  abbrev pub record_after : DnsFailoverPlan → (record_id event_id : Uuid) → Value
  record_after plan record_id event_id = object (
      field "record_id" (string (uuid_text record_id)) (
        field "zone_id" (string (uuid_text plan.zone.zone_id)) (
          field "provider_id" (string (uuid_text plan.zone.provider_id)) (
            field "failover_event_id" (string (uuid_text event_id)) (
              field "record_type" (string plan.change.record_type) (
                field "host" (string plan.change.host) (
                  field "value" (string plan.change.value)
                    (field "ttl" (json_nat plan.change.ttl) end))))))))

  unfoldable pub insert_dns_change_log :
      (log_id : Uuid)
      → DnsFailoverPlan
      → Option DnsRecordSnapshot
      → (record_id event_id : Uuid) (now : DateTime) → Act (Unit {0})
  insert_dns_change_log log_id plan existing record_id event_id now = execute (λ tables.
      record tables {
        dns_change_logs =
            tables.dns_change_logs
            ++ record {
              id = log_id;
              zone_id = plan.zone.zone_id;
              record_id = record_id;
              change_type = "failover_dns_switch";
              before_data = map_some (record_before plan) existing;
              after_data = record_after plan record_id event_id;
              change_status = "applied";
              operator_id = "system:failover-worker";
              created_at = now;
            }
              ∷ [];
      })

-- `serde_json::from_str` is a parameter.
unfoldable pub provider_config_from_dns_zone :
    (String → Option Value) → DnsZoneSnapshot → Result String ProviderConfig
provider_config_from_dns_zone parse_json zone = elim (parse_json zone.credential_encrypted) [
  | none ↦ Result.err "failed to decode dns provider credentials"
  | some credentials ↦ Result.ok (record {
    provider_type = zone.provider_type;
    api_endpoint = zone.api_endpoint;
    credentials = credentials;
  })
]

-- The provider that does nothing always succeeds.
abbrev pub change_record : Provider → DnsRecordChange → Act (Unit {0})
change_record noop change = pure tt
change_record (cloudflare config) change = send change

abbrev pub change_message : Option DnsRecordSnapshot → DnsRecordChange → String
change_message existing change =
    "failed to "
    <> elim existing [ none ↦ "create" | some r ↦ "update" ]
    <> " dns record "
    <> change.record_type
    <> " "
    <> change.host
    <> " to "
    <> change.value

unfoldable pub apply_dns_failover :
    (uuid_text : Uuid → String) (parse_json : String → Option Value) (new_id log_id : Uuid)
    → DnsFailoverPlan
    → (event_id : Uuid) (now : DateTime) → Act (Unit {0})
apply_dns_failover uuid_text parse_json new_id log_id plan event_id now = do
  existing ← load_dns_record_snapshot plan
  provider_config ← lift (provider_config_from_dns_zone parse_json plan.zone)
  provider ← lift (
      map_err (λ _. "failed to build dns provider " <> plan.zone.provider_type)
        (build_provider provider_config))
  with_context (change_message existing plan.change) (change_record provider plan.change)
  record_id ← upsert_dns_record_snapshot new_id plan existing now
  insert_dns_change_log uuid_text log_id plan existing record_id event_id now
