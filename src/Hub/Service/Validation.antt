-- ===== src/Hub/Service/Validation.antt =====
-- `validate_site_config` of service.rs: what a site's configuration must satisfy before it is saved.
pub mod Accepted
use pingora_mesh.Base.{
  String, Bool, true, false, not, ◌&&◌, ◌||◌, Option, none, some, List, [], ◌∷◌, map, keep_if,
  contains, any, filter_map, is_empty, ◌==◌, string_eq, if◌then◌else◌, Result, ok, err, ok_or,
  and_ok, require,
}
use pingora_mesh.Base.Int.{ℤ, pos, cmp_ℤ, leb_ℤ}
use pingora_mesh.Base.Text.{◌<>◌, trim, starts_with}
use pingora_mesh.Json.{
  Value, Fields, get, lookup, as_bool, as_str, as_i64, as_array, as_object, and_then, unwrap_or,
}
use pingora_mesh.SiteConfig.{map_some, to_i32, text_field}
use pingora_mesh.Hub.Service.{AppError}
use pingora_mesh.Hub.Service.AppError.{bad_request}

unfoldable pub required_route_string : Fields → String → Result AppError String
required_route_string route key =
    ok_or (map_some trim (text_field key route)) (bad_request ("route " <> key <> " is required"))

-- What the loop keeps of a route that passes its checks.
pub record RouteKey : Type 0 where
  pub match_type : String
  pub path : String
  pub priority : ℤ

abbrev pub same_key : RouteKey → RouteKey → Bool
same_key a b =
    a.match_type == b.match_type
    && a.path == b.path
    && leb_ℤ a.priority b.priority
    && leb_ℤ b.priority a.priority

unfoldable pub upstream_names : Value → List String
upstream_names config =
    unwrap_or
      (map_some
        (λ upstreams.
          keep_if (λ name. not (name == ""))
            (map trim (filter_map (λ u. and_then (get "name" u) as_str) upstreams)))
        (and_then (get "upstreams" config) as_array))
      []

abbrev pub is_enabled : Fields → Bool
is_enabled route = unwrap_or (and_then (lookup "enabled" route) as_bool) true

abbrev pub priority_of : Fields → ℤ
priority_of route =
    unwrap_or (and_then (and_then (lookup "priority" route) as_i64) to_i32) (pos 100)

-- The checks of one route by its fields.
unfoldable pub check_route : List String → Fields → Result AppError RouteKey
check_route names route = and_ok (required_route_string route "name") (λ name.
    and_ok (required_route_string route "path") (λ path.
      and_ok (required_route_string route "upstream") (λ upstream.
        and_ok (required_route_string route "match_type") (λ match_type.
          and_ok (require (not (name == "")) (bad_request "route name is required")) (λ _.
            and_ok (require (starts_with path "/") (bad_request "route path must start with /"))
              (λ _.
                and_ok
                  (require (match_type == "path_prefix" || match_type == "path_exact")
                    (bad_request "route match_type must be path_prefix or path_exact"))
                  (λ _.
                    and_ok
                      (require (contains upstream names)
                        (bad_request ("route upstream " <> upstream <> " does not exist")))
                      (λ _. ok (record {
                        match_type = match_type;
                        path = path;
                        priority = priority_of route;
                      })))))))))

-- The loop, from the keys that it has seen and whether a default route was among them.
unfoldable pub check_routes : List String → List Value → List RouteKey → Bool → Result AppError Bool
check_routes names [] seen has_default = ok has_default
check_routes names (value ∷ values) seen has_default =
    and_ok (ok_or (as_object value) (bad_request "route must be an object")) (λ route.
      and_ok (check_route names route) (λ key.
        let enabled = is_enabled route in
        let seen' = if enabled then key ∷ seen else seen in
        let has_default' = has_default || (enabled && key.path == "/") in
        let rest = check_routes names values seen' has_default' in
        if enabled && any (same_key key) seen
        then err (bad_request "duplicate active route match_type, path and priority")
        else rest))

unfoldable pub validate_site_config : Value → Result AppError (Unit {0})
validate_site_config config =
    let names = upstream_names config in
    elim (get "routes" config) [
      | none ↦ ok tt
      | some routes_value ↦
          and_ok (ok_or (as_array routes_value) (bad_request "routes must be an array")) (λ routes.
            if is_empty routes && not (is_empty names)
            then err
                (bad_request "routes must include a default / route when upstreams are configured")
            else and_ok (check_routes names routes [] false) (λ has_default_route.
              require (is_empty names || has_default_route)
                (bad_request "routes must include an active default / route")))
    ]
