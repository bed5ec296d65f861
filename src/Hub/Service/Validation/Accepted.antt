-- ===== src/Hub/Service/Validation/Accepted.antt =====
-- What the reader of a configuration makes of one that the validation accepted.
use pingora_mesh.Base.{
  ◌≡◌, refl, ap, suc, some_inj, String, Bool, true, false, not, ◌&&◌, ◌||◌, Option, some, List, [],
  ◌∷◌, map, keep_if, contains, any, filter_map, filter_map-some, filter_map-none, arith, is_empty,
  length, ltb, count_if, count_if-sort_by, sort_by, All-sort_by, length-sort_by, All-map, ◌==◌,
  string_eq, eq_iff, if◌then◌else◌, ok, Bool-cases, Option-cases, Result-cases, inl, inr, All,
}
use pingora_mesh.Base.Order.{le_of}
use pingora_mesh.Base.Text.{trim, starts_with}
use pingora_mesh.Json.{Value, Fields, object, get, as_str, as_array, as_object, and_then}
use pingora_mesh.Domain.{SiteRoute, Upstream}
use pingora_mesh.SiteConfig.{
  text_field, site_route, upstream_of, parse_route_value, parse_upstream, parse_routes,
  parse_upstreams, sort_site_routes, cmp_route,
}
use pingora_mesh.Hub.Service.Validation.{
  required_route_string, RouteKey, upstream_names, is_enabled, check_route, check_routes,
  validate_site_config,
}

-- A route that passed, as it is read.
record Read (names : List String) (route : Fields) (key : RouteKey) : Type 0 where
  parsed : SiteRoute
  parses : parse_route_value (object route) ≡ some parsed
  upstream : contains parsed.upstream names ≡ true
  path : parsed.path ≡ key.path
  enabled : parsed.enabled ≡ is_enabled route

starts_with-nonempty : (s : String) → starts_with s "/" ≡ true → (s == "") ≡ false
unfolding starts_with
starts_with-nonempty s h = elim (Bool-cases (s == "")) [
  | inl e ↦ absurd (cc (rw ((eq_iff s "").0 e) at h))
  | inr e ↦ e
]

contains-nonempty :
    (s : String) (names : List String)
    → contains "" names ≡ false
    → contains s names ≡ true
    → (s == "") ≡ false
contains-nonempty s names h c = elim (Bool-cases (s == "")) [
  | inl e ↦ absurd (cc (rw ((eq_iff s "").0 e) at c, h))
  | inr e ↦ e
]

check_route-Read :
    (names : List String) (route : Fields) (key : RouteKey)
    → contains "" names ≡ false
    → check_route names route ≡ ok key
    → Read names route key
unfolding check_route required_route_string parse_route_value
check_route-Read names route key blank h = elim (Option-cases (text_field "name" route)) [
  | inl e ↦ ground arith
  | inr (name, en) ↦ elim (Option-cases (text_field "path" route)) [
    | inl e ↦ ground arith
    | inr (path, ep) ↦ elim (Option-cases (text_field "upstream" route)) [
      | inl e ↦ ground arith
      | inr (upstream, eu) ↦
          let named : (trim name == "") ≡ false = ground arith in
          let rooted : (trim path == "") ≡ false =
            starts_with-nonempty (trim path) (ground arith) in
          let known : contains (trim upstream) names ≡ true = ground arith in
          let kept = contains-nonempty (trim upstream) names blank known in
          record {
            parsed = site_route route (trim name) (trim path) (trim upstream);
            parses = rw (en, ep, eu, named, rooted, kept) refl;
            upstream = known;
            path = ground arith;
            enabled = refl;
          }
    ]
  ]
]

as_object-object :
    (value : Value) (route : Fields) → as_object value ≡ some route → value ≡ object route
as_object-object (object fields) route h = ap object (some_inj h)
as_object-object Value.null route h = absurd (cc h)
as_object-object (Value.bool b) route h = absurd (cc h)
as_object-object (Value.number n) route h = absurd (cc h)
as_object-object (Value.string s) route h = absurd (cc h)
as_object-object (Value.array vs) route h = absurd (cc h)

abbrev pub is_default : SiteRoute → Bool
is_default route = route.enabled && route.path == "/"

-- All routes that the loop accepted, as they are read.
record AllRead (names : List String) (values : List Value) (before after : Bool) : Type 0 where
  every : length (filter_map parse_route_value values) ≡ length values
  upstreams : All (λ r. contains r.upstream names ≡ true) (filter_map parse_route_value values)
  default : after ≡ (before || any is_default (filter_map parse_route_value values))

cons-AllRead :
    (names : List String) (value : Value) (values : List Value) (route : Fields) (key : RouteKey)
    (before after : Bool)
    → value ≡ object route
    → Read names route key
    → AllRead names values (before || (is_enabled route && key.path == "/")) after
    → AllRead names (value ∷ values) before after
unfolding filter_map any
cons-AllRead names value values route key before after same r h =
    let read = filter_map-some parse_route_value value values r.parsed (rw same r.parses) in
    record {
      every = rw read (ap suc h.every);
      upstreams = rw read (r.upstream, h.upstreams);
      default = rw read (ground (arith, h.default, r.path, r.enabled));
    }

check_routes-AllRead :
    (names : List String) (values : List Value) (seen : List RouteKey) (before after : Bool)
    → contains "" names ≡ false
    → check_routes names values seen before ≡ ok after
    → AllRead names values before after
unfolding check_routes filter_map any
check_routes-AllRead names [] seen before after blank h = record {
  every = refl;
  upstreams = tt;
  default = ground arith;
}
check_routes-AllRead names (value ∷ values) seen before after blank h =
    elim (Option-cases (as_object value)) [
      | inl e ↦ ground arith
      | inr (route, e) ↦ elim (Result-cases (check_route names route)) [
        | inl (error, refused) ↦ ground arith
        | inr (key, passed) ↦
            cons-AllRead names value values route key before after (as_object-object value route e)
              (check_route-Read names route key blank passed)
              (check_routes-AllRead names values (if is_enabled route then key ∷ seen else seen) _
                after blank (ground arith))
      ]
    ]

any-count_if : (p : SiteRoute → Bool) (xs : List SiteRoute) → any p xs ≡ ltb 0 (count_if p xs)
unfolding any
any-count_if p [] = refl
any-count_if p (x ∷ xs) = ground (arith, any-count_if p xs)

-- The upstream that a route names, blanks around its name aside.
abbrev pub is_named : String → Upstream → Bool
is_named name u = trim u.name == name

abbrev pub name_of : Value → Option String
name_of u = and_then (get "name" u) as_str

abbrev pub kept_names : List String → List String
kept_names names = keep_if (λ n. not (n == "")) (map trim names)

named_upstream :
    (name : String) (values : List Value)
    → contains name (kept_names (filter_map name_of values)) ≡ true
    → any (is_named name) (filter_map parse_upstream values) ≡ true
unfolding contains keep_if any
named_upstream name [] h = unfold filter_map in absurd (cc h)
named_upstream name (u ∷ us) h = elim (Option-cases (name_of u)) [
  | inl e ↦
      rw (filter_map-none parse_upstream u us (unfold parse_upstream in rw e refl))
        (named_upstream name us (rw (filter_map-none name_of u us e) at h))
  | inr (n, e) ↦
      let rest = named_upstream name us in
      let there : contains name (kept_names (n ∷ filter_map name_of us)) ≡ true =
        rw (filter_map-some name_of u us n e) at h in
      let parsed : parse_upstream u ≡ some (upstream_of u n) = unfold parse_upstream in rw e refl in
      rw (filter_map-some parse_upstream u us (upstream_of u n) parsed) (ground arith)
]

kept_names-nonempty : (names : List String) → contains "" (kept_names names) ≡ false
unfolding contains keep_if
kept_names-nonempty [] = refl
kept_names-nonempty (n ∷ names) = ground (arith, kept_names-nonempty names, eq_iff (trim n) "")

upstream_names-any :
    (name : String) (config : Value)
    → contains name (upstream_names config) ≡ true
    → any (is_named name) (parse_upstreams config) ≡ true
unfolding upstream_names parse_upstreams
upstream_names-any name config h =
    elim (Option-cases (and_then (get "upstreams" config) as_array)) [
      | inl e ↦ unfold contains in absurd (cc (rw e at h))
      | inr (values, e) ↦ rw e (named_upstream name values (rw e at h))
    ]

upstream_names-nonempty : (config : Value) → contains "" (upstream_names config) ≡ false
unfolding upstream_names contains
upstream_names-nonempty config = elim (Option-cases (and_then (get "upstreams" config) as_array)) [
  | inl e ↦ rw e refl
  | inr (values, e) ↦ rw e (kept_names-nonempty (filter_map name_of values))
]

parse_routes-listed :
    (config routes : Value) (values : List Value) (upstreams : List Upstream)
    → get "routes" config ≡ some routes
    → as_array routes ≡ some values
    → parse_routes config upstreams
      ≡ sort_by (le_of cmp_route) (filter_map parse_route_value values)
unfolding parse_routes sort_site_routes
parse_routes-listed config routes values upstreams found listed =
    rw (found, listed, parse_routes) refl

-- A configuration that is accepted passed the loop, and found a default route if it needs one.
validate_site_config-passed :
    (config routes : Value) (values : List Value)
    → validate_site_config config ≡ ok tt
    → get "routes" config ≡ some routes
    → as_array routes ≡ some values
    → (default : Bool) × (check_routes (upstream_names config) values [] false ≡ ok default)
      × (is_empty (upstream_names config) ≡ false → default ≡ true)
unfolding validate_site_config
validate_site_config-passed config routes values valid found listed =
    let opened = rw (found, listed, validate_site_config) at valid in
    elim (Result-cases (check_routes (upstream_names config) values [] false)) [
      | inl (e, refused) ↦ absurd (ground arith)
      | inr (default, passed) ↦ (default, passed, λ some_names. ground arith)
    ]

-- A configuration with routes that the validation accepts is read without loss: every route of it is
-- read, each of them names an upstream that is read too, blanks around the upstream's name aside,
-- and where an upstream has a name that is not blank, an enabled route has the path `/`.
pub validate_site_config-read :
    (config routes : Value) (values : List Value)
    → validate_site_config config ≡ ok tt
    → get "routes" config ≡ some routes
    → as_array routes ≡ some values
    → let parsed = parse_routes config (parse_upstreams config) in
      (length parsed ≡ length values)
      × All (λ r. any (is_named r.upstream) (parse_upstreams config) ≡ true) parsed
      × (is_empty (upstream_names config) ≡ false → any is_default parsed ≡ true)
validate_site_config-read config routes values valid found listed =
    let (default, passed, needed) =
      validate_site_config-passed config routes values valid found listed in
    let names = upstream_names config in
    let read =
      check_routes-AllRead names values [] false default (upstream_names-nonempty config) passed in
    let all = filter_map parse_route_value values in
    rw (parse_routes-listed config routes values (parse_upstreams config) found listed) (
      ground (arith, length-sort_by (le_of cmp_route) all, read.every),
      All-sort_by (le_of cmp_route) (λ r. any (is_named r.upstream) (parse_upstreams config) ≡ true)
          all (All-map all (λ r h. upstream_names-any r.upstream config h) read.upstreams),
      λ some_names. ground (
        arith,
        needed some_names,
        read.default,
        any-count_if is_default all,
        any-count_if is_default (sort_by (le_of cmp_route) all),
        count_if-sort_by (le_of cmp_route) is_default all,
      ),
    )
