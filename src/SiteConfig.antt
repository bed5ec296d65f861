-- ===== src/SiteConfig.antt =====
-- How the JSON configuration of a site is read: `parse_upstreams`, `parse_routes` and
-- `parse_cache_rules` of apps/hub-api/src/store.rs. Lowercasing by Unicode is a parameter.
use pingora_mesh.Base.{
  ℕ, String, true, false, not, ◌||◌, Option, none, some, List, [], ◌∷◌, map, keep_if, is_empty,
  filter_map, sort_by, first, leb, nat_beq, ◌==◌, string_eq, if◌then◌else◌, Ordering,
}
use pingora_mesh.Base.Int.{ℤ, pos, cmp_ℤ, negsuc}
use pingora_mesh.Base.Order.{then_with, le_of, cmp_str, compare}
use pingora_mesh.Base.Text.{
  ◌<>◌, trim, trim_start_matches, to_ascii_lowercase, byte_length, decimal,
}
use pingora_mesh.Json.{
  Value, Fields, string, object, get, lookup, items, as_bool, as_str, as_u64, as_i64, as_array,
  as_object, and_then, unwrap_or,
}
use pingora_mesh.Domain.{
  UpstreamEndpoint, UpstreamBalanceMethod, round_robin, weighted_round_robin, least_connections,
  ip_hash, Upstream, RouteMatchType, path_prefix, path_exact, SiteRoute, CacheRule,
}

abbrev pub or_else {ℓ} : {A : Type ℓ} → Option A → Option A → Option A
or_else none o = o
or_else (some a) o = some a

abbrev pub map_some {ℓ κ} : {A : Type ℓ} {B : Type κ} → (A → B) → Option A → Option B
map_some f none = none
map_some f (some a) = some (f a)

-- `u16::try_from`
abbrev pub to_u16 : ℕ → Option ℕ
to_u16 n = if leb n 65535 then some n else none

-- `i32::try_from`
abbrev pub to_i32 : ℤ → Option ℤ
to_i32 (pos n) = if leb n 2147483647 then some (pos n) else none
to_i32 (negsuc n) = if leb n 2147483647 then some (negsuc n) else none

abbrev pub text_field : String → Fields → Option String
text_field key fields = and_then (lookup key fields) as_str

unfoldable pub parse_endpoint_object : Fields → Option UpstreamEndpoint
parse_endpoint_object fields =
    map_some
      (λ address. record {
        address = address;
        weight = unwrap_or (and_then (and_then (lookup "weight" fields) as_u64) to_u16) 100;
        active = unwrap_or (and_then (lookup "active" fields) as_bool) true;
        backup = unwrap_or (and_then (lookup "backup" fields) as_bool) false;
      })
      (text_field "address" fields)

abbrev pub parse_endpoint : Value → Option UpstreamEndpoint
parse_endpoint (string address) =
    some (record { address = address; weight = 100; active = true; backup = false })
parse_endpoint (object fields) = parse_endpoint_object fields
parse_endpoint _ = none

unfoldable pub normalize_upstream_balance_method : String → UpstreamBalanceMethod
normalize_upstream_balance_method raw =
    let method = to_ascii_lowercase (trim raw) in
    if method == "weighted_round_robin"
      || method == "weighted"
      || method == "weight"
      || method == "wrr"
    then weighted_round_robin
    else if method == "least_connections"
        || method == "least_conn"
        || method == "least-connections"
        || method == "least-conn"
    then least_connections
    else if method == "ip_hash" || method == "ip-hash" || method == "hash"
    then ip_hash
    else round_robin

unfoldable pub parse_upstream_balance_method : Value → UpstreamBalanceMethod
parse_upstream_balance_method upstream =
    unwrap_or
      (map_some normalize_upstream_balance_method (
        and_then
          (or_else (or_else (get "balance_method" upstream) (get "distribution_method" upstream))
            (get "method" upstream))
          as_str))
      round_robin

abbrev pub upstream_of : Value → String → Upstream
upstream_of upstream name = record {
  name = name;
  balance_method = parse_upstream_balance_method upstream;
  endpoints =
      unwrap_or
        (map_some (filter_map parse_endpoint) (and_then (get "endpoints" upstream) as_array)) [];
}

unfoldable pub parse_upstream : Value → Option Upstream
parse_upstream upstream = map_some (upstream_of upstream) (and_then (get "name" upstream) as_str)

unfoldable pub parse_upstreams : Value → List Upstream
parse_upstreams config =
    unwrap_or (map_some (filter_map parse_upstream) (and_then (get "upstreams" config) as_array)) []

unfoldable pub parse_route_match_type : String → RouteMatchType
parse_route_match_type raw =
    let kind = to_ascii_lowercase (trim raw) in
    if kind == "path_exact" || kind == "exact" || kind == "=" then path_exact else path_prefix

-- A route from its three texts.
abbrev pub site_route : Fields → String → String → String → SiteRoute
site_route fields name path upstream = record {
  name = name;
  enabled = unwrap_or (and_then (lookup "enabled" fields) as_bool) true;
  match_type =
      unwrap_or (map_some parse_route_match_type (text_field "match_type" fields)) path_prefix;
  path = path;
  upstream = upstream;
  priority = unwrap_or (and_then (and_then (lookup "priority" fields) as_i64) to_i32) (pos 100);
  strip_prefix = unwrap_or (and_then (lookup "strip_prefix" fields) as_bool) false;
}

-- None of the three texts may be blank.
abbrev pub route_of : Fields → String → String → String → Option SiteRoute
route_of fields name path upstream =
    if name == "" || path == "" || upstream == ""
    then none
    else some (site_route fields name path upstream)

unfoldable pub parse_route_value : Value → Option SiteRoute
parse_route_value route = and_then (as_object route) (λ fields.
    and_then (text_field "name" fields) (λ name. and_then (text_field "path" fields) (λ path.
      and_then (text_field "upstream" fields)
        (λ upstream. route_of fields (trim name) (trim path) (trim upstream)))))

unfoldable pub route_match_rank : RouteMatchType → ℕ
route_match_rank RouteMatchType.path_exact = 0
route_match_rank RouteMatchType.path_prefix = 1

-- By priority, then the longer path, then the exact match, then the name.
abbrev pub cmp_route : SiteRoute → SiteRoute → Ordering
cmp_route left right =
    then_with
      (then_with
        (then_with (cmp_ℤ left.priority right.priority)
          (compare (byte_length right.path) (byte_length left.path)))
        (compare (route_match_rank left.match_type) (route_match_rank right.match_type)))
      (cmp_str left.name right.name)

unfoldable pub sort_site_routes : List SiteRoute → List SiteRoute
sort_site_routes routes = sort_by (le_of cmp_route) routes

unfoldable pub default_site_routes : List Upstream → List SiteRoute
default_site_routes upstreams = elim (first upstreams) [
  | none ↦ []
  | some upstream ↦
      (record {
        name = "default";
        enabled = true;
        match_type = path_prefix;
        path = "/";
        upstream = upstream.name;
        priority = pos 1000;
        strip_prefix = false;
      })
      ∷ []
]

unfoldable pub parse_routes : Value → List Upstream → List SiteRoute
parse_routes config upstreams = elim (get "routes" config) [
  | none ↦ default_site_routes upstreams
  | some routes ↦ elim (as_array routes) [
    | none ↦ []
    | some routes ↦ sort_site_routes (filter_map parse_route_value routes)
  ]
]

module _ (to_lowercase : String → String) where
  -- The file extensions of a rule, without their dot.
  abbrev pub parse_extensions : List Value → List String
  parse_extensions items =
      keep_if (λ item. not (item == ""))
        (map (λ item. to_lowercase (trim_start_matches (λ c. nat_beq c 0x2e) (trim item)))
          (filter_map as_str items))

  abbrev pub cache_rule_of : Value → String → ℕ → List String → Option CacheRule
  cache_rule_of rule name expires_seconds match_extensions =
      if name == "" || nat_beq expires_seconds 0 || is_empty match_extensions
      then none
      else let cache_control =
          unwrap_or (map_some trim (and_then (get "cache_control" rule) as_str)) "" in
        some (record {
          name = name;
          match_extensions = match_extensions;
          expires_seconds = expires_seconds;
          cache_control =
              (if cache_control == ""
                then "public, max-age=" <> decimal expires_seconds
                else cache_control);
        })

  unfoldable pub parse_cache_rule : Value → Option CacheRule
  parse_cache_rule rule = and_then (and_then (get "name" rule) as_str) (λ name.
      and_then (and_then (get "expires_seconds" rule) as_u64) (λ expires_seconds.
        cache_rule_of rule (trim name) expires_seconds (
          unwrap_or (map_some parse_extensions (and_then (get "match_extensions" rule) as_array))
            [])))

  unfoldable pub parse_cache_rules : Value → List CacheRule
  parse_cache_rules config =
      unwrap_or
        (map_some (filter_map parse_cache_rule) (and_then (get "cache_rules" config) as_array)) []
