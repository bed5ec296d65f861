-- ===== src/Hub/Memory/Dns.antt =====
-- The methods of `MemoryRepository` on dns providers and zones.
use pingora_mesh.Base.{
  String, ◌&&◌, Option, none, some, List, [], ◌∷◌, map, keep_if, find, ◌==◌, nat_eq, string_eq,
}
use pingora_mesh.Base.Map
use pingora_mesh.Base.Map.{Map}
use pingora_mesh.Domain.{Uuid}
use pingora_mesh.Hub.Records.{DnsProviderRecord, DnsZoneRecord}
use pingora_mesh.Hub.Memory.{MemoryState}

unfoldable pub save_dns_provider : DnsProviderRecord → MemoryState → MemoryState
save_dns_provider provider state = record state {
  dns_provider_ids_by_name =
      Map.insert provider.name provider.provider_id state.dns_provider_ids_by_name;
  dns_providers = Map.insert provider.provider_id provider state.dns_providers;
}

unfoldable pub dns_provider : Uuid → MemoryState → Option DnsProviderRecord
dns_provider provider_id state = Map.get provider_id state.dns_providers

unfoldable pub dns_provider_by_name : String → MemoryState → Option DnsProviderRecord
dns_provider_by_name name state = elim (Map.get name state.dns_provider_ids_by_name) [
  | none ↦ none
  | some provider_id ↦ Map.get provider_id state.dns_providers
]

-- The zones of the provider go one after the other.
unfoldable pub remove_zones : List Uuid → Map Uuid DnsZoneRecord → Map Uuid DnsZoneRecord
remove_zones [] zones = zones
remove_zones (zone_id ∷ zone_ids) zones = remove_zones zone_ids (Map.remove zone_id zones)

unfoldable pub zone_ids_of : Uuid → Map Uuid DnsZoneRecord → List Uuid
zone_ids_of provider_id zones =
    map (λ (zone : DnsZoneRecord). zone.zone_id)
      (keep_if (λ zone. zone.provider_id == provider_id) (Map.values zones))

unfoldable pub delete_dns_provider : Uuid → MemoryState → MemoryState
delete_dns_provider provider_id state = elim (Map.get provider_id state.dns_providers) [
  | none ↦ state
  | some provider ↦ record state {
    dns_providers = Map.remove provider_id state.dns_providers;
    dns_provider_ids_by_name = Map.remove provider.name state.dns_provider_ids_by_name;
    dns_zones = remove_zones (zone_ids_of provider_id state.dns_zones) state.dns_zones;
  }
]

unfoldable pub save_dns_zone : DnsZoneRecord → MemoryState → MemoryState
save_dns_zone zone state = record state { dns_zones = Map.insert zone.zone_id zone state.dns_zones }

unfoldable pub dns_zone : Uuid → MemoryState → Option DnsZoneRecord
dns_zone zone_id state = Map.get zone_id state.dns_zones

unfoldable pub dns_zone_by_provider_name : Uuid → String → MemoryState → Option DnsZoneRecord
dns_zone_by_provider_name provider_id zone_name state =
    find (λ zone. zone.provider_id == provider_id && zone.zone_name == zone_name)
      (Map.values state.dns_zones)

unfoldable pub delete_dns_zone : Uuid → MemoryState → MemoryState
delete_dns_zone zone_id state = record state { dns_zones = Map.remove zone_id state.dns_zones }
