-- ===== src/Failover/Load.antt =====
-- What the failover worker reads before a switch: the site with its bindings, the dns zones and the
-- certificates.
use pingora_mesh.Base.{
  ℕ, String, Bool, Option, List, map, ◌==◌, nat_eq, string_eq, find, keep_if, filter_map, sort_by,
  max_by, min, ok_or, ◌>>=◌, lift, if◌then◌else◌, pure,
}
use pingora_mesh.Base.Int.{ℤ, pos, negsuc, leb_ℤ}
use pingora_mesh.Base.Order.{le_of}
use pingora_mesh.Base.Text.{◌<>◌}
use pingora_mesh.Json.{object, end, unwrap_or}
use pingora_mesh.SiteConfig.{map_some}
use pingora_mesh.Domain.{Uuid, Protocol, SiteStatus, CertificateRef}
use pingora_mesh.Failover.Snapshot.{SiteSnapshot, SiteBindingSnapshot, DnsZoneSnapshot}
use pingora_mesh.Failover.Bindings.{cmp_switched}
use pingora_mesh.Failover.Tables.{
  Tables, SiteRow, SiteConfigRow, NodeRow, BindingRow, SiteCertificateRow,
}
use pingora_mesh.Failover.Database.{Act, query}

unfoldable pub decode_protocol : String → Protocol
decode_protocol raw =
    if raw == "http"
    then Protocol.http
    else if raw == "https"
    then Protocol.https
    else if raw == "tcp"
    then Protocol.tcp
    else Protocol.http

unfoldable pub decode_site_status : String → SiteStatus
decode_site_status raw =
    if raw == "draft"
    then SiteStatus.draft
    else if raw == "published"
    then SiteStatus.published
    else if raw == "disabled"
    then SiteStatus.disabled
    else SiteStatus.draft

-- `.clamp(0, i32::from(u16::MAX)) as u16`
abbrev pub port_of : ℤ → ℕ
port_of (pos n) = min n 65535
port_of (negsuc n) = 0

-- A binding with its node; one whose node is gone is not in the join.
abbrev pub joined_binding : List NodeRow → BindingRow → Option SiteBindingSnapshot
joined_binding nodes b =
    map_some
      (λ (node : NodeRow). record {
        node_id = b.node_id;
        node_code = node.node_code;
        node_status = node.status;
        binding_role = b.binding_role;
        priority = b.priority;
      })
      (find (λ (node : NodeRow). node.id == b.node_id) nodes)

abbrev pub is_binding_of : Uuid → BindingRow → Bool
is_binding_of site_id b = b.site_id == site_id

unfoldable pub site_bindings : Uuid → Tables → List SiteBindingSnapshot
site_bindings site_id tables = sort_by (le_of cmp_switched) (
    filter_map (joined_binding tables.nodes)
      (keep_if (is_binding_of site_id) tables.site_node_bindings))

unfoldable pub load_site_bindings : Uuid → Act (List SiteBindingSnapshot)
load_site_bindings site_id = query (site_bindings site_id)

-- The site's row, with its configuration of the greatest version.
unfoldable pub site_row : Uuid → Tables → Option (SiteRow × Option SiteConfigRow)
site_row site_id tables =
    map_some
      (λ (row : SiteRow). (
        row,
        max_by (λ (a b : SiteConfigRow). leb_ℤ a.version b.version)
            (keep_if (λ (config : SiteConfigRow). config.site_id == site_id) tables.site_configs),
      ))
      (find (λ (row : SiteRow). row.id == site_id) tables.sites)

unfoldable pub snapshot_of :
    SiteRow × Option SiteConfigRow → List SiteBindingSnapshot → SiteSnapshot
snapshot_of (row, config) bindings = record {
  site_id = row.id;
  site_code = row.site_code;
  name = row.name;
  domain = row.domain;
  listen_port = port_of row.listen_port;
  protocol = decode_protocol row.protocol;
  tls_enabled = row.tls_enabled;
  status = decode_site_status row.status;
  config = unwrap_or (map_some (λ (c : SiteConfigRow). c.config_json) config) (object end);
  bindings = bindings;
}

unfoldable pub load_site_snapshot : (Uuid → String) → Uuid → Act SiteSnapshot
load_site_snapshot uuid_text site_id = do
  found ← query (site_row site_id)
  row ← lift (ok_or found ("site " <> uuid_text site_id <> " not found"))
  bindings ← load_site_bindings site_id
  pure (snapshot_of row bindings)

unfoldable pub load_dns_zone_snapshots : Act (List DnsZoneSnapshot)
load_dns_zone_snapshots = query (λ tables. tables.dns_zones)

unfoldable pub load_site_certificates : Uuid → Act (List CertificateRef)
load_site_certificates site_id = query (λ tables.
    map (λ (row : SiteCertificateRow). row.certificate)
      (keep_if (λ (row : SiteCertificateRow). row.site_id == site_id) tables.site_certificates))
