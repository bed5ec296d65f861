-- ===== src/Failover/Dns/Laws.antt =====
-- What a plan for the dns is made of, and which zone it is made in.
use pingora_mesh.Base.{
  ◌≤◌, ◌≡◌, ◌⊎◌, refl, String, true, false, Option, none, some, List, Memᴰ, arith, inl, inr, ok,
  ok_or, Option-cases, Result-cases, Bool-cases, keep_if, find-mem, find-passes, max_by-mem,
  max_by-above, mem-keep_if, keep_if-mem, All-mem, subst, IsPreorder, string_eq, nat_eq, ◌==◌,
}
use pingora_mesh.Base.Text.{byte_length, to_ascii_uppercase}
use pingora_mesh.Json.{Fields, and_then, unwrap_or, as_bool, lookup}
use pingora_mesh.Failover.Snapshot.{PolicySnapshot, SiteSnapshot, DnsZoneSnapshot}
use pingora_mesh.Failover.Dns.{
  Parsers, DnsFailoverPlan, is_active, is_zone_id, is_zone_name, is_zone_of, le_zone_name,
  non_blank, text_of, dns_failover_config, validate_dns_failover_target, planned_change,
  select_named_zone, select_dns_failover_zone, enabled_plan, build_dns_failover_plan,
}

abbrev IsActiveZone : DnsZoneSnapshot → List DnsZoneSnapshot → Type 0
IsActiveZone zone zones = Memᴰ zone zones × (is_active zone ≡ true)

le_zone_name-IsPreorder : IsPreorder le_zone_name
le_zone_name-IsPreorder = record {
  total = λ a b h. ground (arith, h);
  trans = λ a b c h k. ground (arith, h, k);
}

ok_or-some {ℓ} :
    {E A : Type ℓ} (found : Option A) (e : E) (a : A) → ok_or found e ≡ ok a → found ≡ some a
ok_or-some none e a h = absurd (cc h)
ok_or-some (some b) e a h = cc h

module _ (parsers : Parsers) where
  select_named_zone-active :
      (domain : String) (name : Option String) (zones : List DnsZoneSnapshot)
      (zone : DnsZoneSnapshot)
      → select_named_zone parsers domain name zones ≡ ok zone
      → IsActiveZone zone zones
  unfolding select_named_zone
  select_named_zone-active domain (some name) zones zone done =
      let found = ok_or-some _ _ zone done in
      (
        find-mem (is_zone_name name) zones zone found,
        ground (arith, find-passes (is_zone_name name) zones zone found),
      )
  select_named_zone-active domain none zones zone done =
      let (passes, member) = mem-keep_if (is_zone_of domain) zone zones (
        max_by-mem le_zone_name (keep_if (is_zone_of domain) zones) zone
          (ok_or-some _ _ zone done)) in
      (member, ground (arith, passes))

  select_dns_failover_zone-active :
      (domain : String) (config : Fields) (zones : List DnsZoneSnapshot) (zone : DnsZoneSnapshot)
      → select_dns_failover_zone parsers domain config zones ≡ ok zone
      → IsActiveZone zone zones
  unfolding select_dns_failover_zone
  select_dns_failover_zone-active domain config zones zone done =
      elim (Option-cases (and_then (text_of "zone_id" config) parsers.parse_uuid)) [
        | inl e ↦
            select_named_zone-active domain (non_blank (text_of "zone_name" config)) zones zone
              (rw (e, select_dns_failover_zone) at done)
        | inr (zone_id, e) ↦
            let found = ok_or-some _ _ zone (rw (e, select_dns_failover_zone) at done) in
            (
              find-mem (is_zone_id zone_id) zones zone found,
              ground (arith, find-passes (is_zone_id zone_id) zones zone found),
            )
      ]

  -- Where the policy names no zone, the change is made in an active zone that the domain belongs to,
  -- and no such zone has a longer name.
  pub select_named_zone-longest :
      (domain : String) (zones : List DnsZoneSnapshot) (zone : DnsZoneSnapshot)
      → select_named_zone parsers domain none zones ≡ ok zone
      → Memᴰ zone zones
        × (is_zone_of domain zone ≡ true)
        × ((other : DnsZoneSnapshot)
            → Memᴰ other zones
            → is_zone_of domain other ≡ true
            → byte_length other.zone_name ≤ byte_length zone.zone_name)
  unfolding select_named_zone
  select_named_zone-longest domain zones zone done =
      let candidates = keep_if (is_zone_of domain) zones in
      let found = ok_or-some _ _ zone done in
      let (passes, member) =
        mem-keep_if (is_zone_of domain) zone zones
          (max_by-mem le_zone_name candidates zone found) in
      (
        member,
        passes,
        λ other listed belongs.
            let below =
              All-mem (λ z. le_zone_name z zone ≡ true) other candidates
                (max_by-above le_zone_name le_zone_name-IsPreorder candidates zone found)
                (keep_if-mem (is_zone_of domain) other zones listed belongs) in
            ground (arith, below),
      )

  validate_dns_failover_target-valid :
      (record_type value : String)
      → validate_dns_failover_target parsers record_type value ≡ ok tt
      → ((record_type ≡ "A") × (parsers.is_ipv4 value ≡ true))
        ⊎ ((record_type ≡ "AAAA") × (parsers.is_ipv6 value ≡ true))
  unfolding validate_dns_failover_target
  validate_dns_failover_target-valid record_type value done =
      elim (Bool-cases (record_type == "A")) [
        | inl a ↦ inl (
          (string_eq.beq_iff record_type "A").0 a,
          ground (arith, rw (a, validate_dns_failover_target) at done),
        )
        | inr other ↦ elim (Bool-cases (record_type == "AAAA")) [
          | inl aaaa ↦ inr (
            (string_eq.beq_iff record_type "AAAA").0 aaaa,
            ground (arith, rw (other, aaaa, validate_dns_failover_target) at done),
          )
          | inr bad ↦ absurd (cc (rw (other, bad, validate_dns_failover_target) at done))
        ]
      ]

  pub record IsValidPlan (plan : DnsFailoverPlan) (zones : List DnsZoneSnapshot) : Type 0 where
    pub zone : IsActiveZone plan.zone zones
    pub zone_id : plan.change.zone_id ≡ some plan.zone.external_zone_id
    pub target :
        ((plan.change.record_type ≡ "A") × (parsers.is_ipv4 plan.change.value ≡ true))
        ⊎ ((plan.change.record_type ≡ "AAAA") × (parsers.is_ipv6 plan.change.value ≡ true))
    pub ttl : (1 ≤ plan.change.ttl) × (plan.change.ttl ≤ 86400)

  enabled_plan-valid :
      (site : SiteSnapshot) (policy : PolicySnapshot) (config : Fields)
      (zones : List DnsZoneSnapshot) (plan : DnsFailoverPlan)
      → enabled_plan parsers site policy config zones ≡ ok plan
      → IsValidPlan plan zones
  unfolding enabled_plan
  enabled_plan-valid site policy config zones plan done =
      let record_type =
        to_ascii_uppercase (unwrap_or (non_blank (text_of "record_type" config)) "A") in
      elim (Option-cases (non_blank policy.standby_public_ip)) [
        | inl e ↦ absurd (cc (rw (e, enabled_plan) at done))
        | inr (ip, e) ↦ elim (Result-cases (validate_dns_failover_target parsers record_type ip)) [
          | inl (x, refused) ↦ absurd (cc (rw (e, refused, enabled_plan) at done))
          | inr (_, valid) ↦
              elim (Result-cases (select_dns_failover_zone parsers site.domain config zones)) [
                | inl (x, refused) ↦ absurd (cc (rw (e, valid, refused, enabled_plan) at done))
                | inr (zone, selected) ↦
                    let p = planned_change site config record_type ip zone in
                    let same : p ≡ plan =
                      ground (arith, rw (e, valid, selected, enabled_plan) at done) in
                    subst (λ q. IsValidPlan q zones) same
                      (record {
                        zone =
                            select_dns_failover_zone-active site.domain config zones zone selected;
                        zone_id = refl;
                        target = validate_dns_failover_target-valid record_type ip valid;
                        ttl = (ground arith, ground arith);
                      })
              ]
        ]
      ]

  -- What `build_dns_failover_plan` plans is a change in one of the active zones, with the provider's
  -- id of that zone, to an address of the kind that the record type wants, for a time between a
  -- second and a day.
  pub build_dns_failover_plan-valid :
      (site : SiteSnapshot) (policy : PolicySnapshot) (zones : List DnsZoneSnapshot)
      (plan : DnsFailoverPlan)
      → build_dns_failover_plan parsers site policy zones ≡ ok (some plan)
      → IsValidPlan plan zones
  unfolding build_dns_failover_plan
  build_dns_failover_plan-valid site policy zones plan done =
      elim (Option-cases (dns_failover_config policy.precheck_policy)) [
        | inl e ↦ absurd (cc (rw (e, build_dns_failover_plan) at done))
        | inr (config, e) ↦
            elim (Bool-cases (unwrap_or (and_then (lookup "enabled" config) as_bool) false)) [
              | inl on ↦
                  let done' = rw (e, on, build_dns_failover_plan) at done in
                  elim (Result-cases (enabled_plan parsers site policy config zones)) [
                    | inl (x, refused) ↦ absurd (cc (rw (refused) at done'))
                    | inr (p, planned) ↦
                        subst (λ q. IsValidPlan q zones) (ground (arith, rw (planned) at done'))
                          (enabled_plan-valid site policy config zones p planned)
                  ]
              | inr off ↦ absurd (cc (rw (e, off, build_dns_failover_plan) at done))
            ]
      ]
