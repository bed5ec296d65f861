-- ===== src/Hub/Memory/Sites.antt =====
-- The methods of `MemoryRepository` on sites and their certificates.
use pingora_mesh.Base.{String, Option, none, some, List, [], ◌==◌, nat_eq, string_eq, if◌then◌else◌}
use pingora_mesh.Base.Map
use pingora_mesh.Json.{unwrap_or}
use pingora_mesh.Domain.{Uuid, CertificateRef}
use pingora_mesh.Hub.Records.{SiteRecord, CertificateRecord, CertificateOrderRecord}
use pingora_mesh.Hub.Memory.{MemoryState}

unfoldable pub save_site : SiteRecord → MemoryState → MemoryState
save_site site state = record state {
  site_ids_by_code = Map.insert site.site_code site.id state.site_ids_by_code;
  sites = Map.insert site.id site state.sites;
}

unfoldable pub find_site : Uuid → MemoryState → Option SiteRecord
find_site site_id state = Map.get site_id state.sites

unfoldable pub site_id_by_code : String → MemoryState → Option Uuid
site_id_by_code site_code state = Map.get site_code state.site_ids_by_code

-- An order of the site outlives it, without naming it.
abbrev pub detach_order : Uuid → CertificateOrderRecord → CertificateOrderRecord
detach_order site_id order = elim order.site_id [
  | none ↦ order
  | some id ↦ if id == site_id then record order { site_id = none } else order
]

unfoldable pub delete_site : Uuid → MemoryState → MemoryState
delete_site site_id state = elim (Map.get site_id state.sites) [
  | none ↦ state
  | some site ↦ record state {
    sites = Map.remove site_id state.sites;
    site_ids_by_code = Map.remove site.site_code state.site_ids_by_code;
    site_certificates = Map.remove site_id state.site_certificates;
    certificate_orders = Map.map_values (detach_order site_id) state.certificate_orders;
  }
]

-- The memory repository keeps no failover policies.
unfoldable pub update_active_failover_policy_targets :
    Uuid → Uuid → Uuid → MemoryState → MemoryState
update_active_failover_policy_targets site_id primary_node_id standby_node_id state = state

unfoldable pub save_certificate : CertificateRecord → MemoryState → MemoryState
save_certificate certificate state = record state {
  certificates = Map.insert certificate.certificate_id certificate state.certificates;
}

unfoldable pub site_certificates : Uuid → MemoryState → List CertificateRef
site_certificates site_id state = unwrap_or (Map.get site_id state.site_certificates) []

unfoldable pub save_certificate_order : CertificateOrderRecord → MemoryState → MemoryState
save_certificate_order order state = record state {
  certificate_orders = Map.insert order.order_id order state.certificate_orders;
}

unfoldable pub certificate_order : Uuid → MemoryState → Option CertificateOrderRecord
certificate_order order_id state = Map.get order_id state.certificate_orders
