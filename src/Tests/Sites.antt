-- ===== src/Tests/Sites.antt =====
-- The configuration of a site with one upstream and its default route.
use pingora_mesh.Base.{
  ◌≡◌, refl, true, false, [], ◌∷◌, ok, any, length, is_empty, none, some, arith, string_eq, All,
  filter_map, keep_if, contains,
}
use pingora_mesh.Base.Text.{
  starts_with, trim, trim_start_matches, trim_end_matches, is_whitespace, to_ascii_lowercase,
  map_chars, translate, decimal, decimal_from,
}
use pingora_mesh.Json.{Value, string, array, nil, cons, object, end, field, get, lookup, items}
use pingora_mesh.Base.Map
use pingora_mesh.Domain.{Protocol}
use pingora_mesh.Hub.Records.{SiteRecord}
use pingora_mesh.Hub.Memory.{no_state}
use pingora_mesh.Hub.Memory.Sites.{find_site, site_id_by_code}
use pingora_mesh.Hub.Tokens.{no_tokens}
use pingora_mesh.Hub.Service.{HubState}
use pingora_mesh.Hub.Service.Sites.{CreateSiteRequest, parse_protocol, create_site}
use pingora_mesh.Hub.Service.Sites.Laws.{IsNewDraft, create_site-succeeds}
use pingora_mesh.Hub.Service.Codes.{
  generate_unique_site_code, free_code_from, candidate, base_code, slugify_site_code, slugify_from,
  slug_char, first_label,
}
use pingora_mesh.SiteConfig.{parse_upstreams, parse_routes}
use pingora_mesh.Hub.Service.Validation.{
  required_route_string, upstream_names, check_route, check_routes, validate_site_config,
}
use pingora_mesh.Hub.Service.Validation.Accepted.{is_default, is_named, validate_site_config-read}

abbrev upstream : Value
upstream = object (field "name" (string "app") (field "endpoints" (array nil) end))

abbrev route : Value
route = object (
    field "name" (string "all") (
      field "path" (string "/")
        (field "upstream" (string "app") (field "match_type" (string "path_prefix") end))))

abbrev config : Value
config =
    object
      (field "upstreams" (array (cons upstream nil)) (field "routes" (array (cons route nil)) end))

validate_site_config-read_example :
    let parsed = parse_routes config (parse_upstreams config) in
    (length parsed ≡ 1)
    × All (λ r. any (is_named r.upstream) (parse_upstreams config) ≡ true) parsed
    × (is_empty (upstream_names config) ≡ false → any is_default parsed ≡ true)
unfolding validate_site_config upstream_names check_routes check_route required_route_string get
    lookup items filter_map keep_if contains any starts_with trim trim_start_matches
    trim_end_matches is_whitespace
validate_site_config-read_example =
    validate_site_config-read config (array (cons route nil)) (route ∷ []) refl refl refl

abbrev request : CreateSiteRequest
request = record {
  site_code = none;
  name = "Shop";
  domain = "shop.example.com";
  listen_port = 80;
  protocol = "HTTP";
  tls_enabled = false;
  config = config;
}

abbrev hub : HubState
hub = record {
  repo = record no_state { site_ids_by_code = ("shop", 3) ∷ [] };
  tokens = no_tokens;
  release_counter = 1;
}

-- The second site called `shop`.
shop_is_taken :
    generate_unique_site_code 2 hub.repo "site-0" none "Shop" "shop.example.com" ≡ some "shop-2"
unfolding generate_unique_site_code free_code_from candidate base_code slugify_site_code
    slugify_from slug_char first_label trim_start_matches trim_end_matches translate site_id_by_code
    Map.get decimal decimal_from
shop_is_taken = refl

create_site-succeeds_example :
    (site : SiteRecord) × (after : HubState) × (create_site 9 "site-0" request hub
      ≡ (ok site, after))
    × IsNewDraft 9 Protocol.http request site
    × (site_id_by_code site.site_code hub.repo ≡ none)
    × (site_id_by_code site.site_code after.repo ≡ some 9)
    × (find_site 9 after.repo ≡ some site)
unfolding validate_site_config upstream_names check_routes check_route required_route_string get
    lookup items filter_map keep_if contains any starts_with trim trim_start_matches
    trim_end_matches is_whitespace parse_protocol to_ascii_lowercase map_chars translate
create_site-succeeds_example =
    create_site-succeeds 9 "site-0" request hub Protocol.http (omega arith) refl refl refl
