-- ===== src/Hub/Service/Releases/Detached.antt =====
-- The nodes that a new release of a site leaves behind.
use pingora_mesh.Base.{
  ◌≡◌, ◌≢◌, ◌⊎◌, ◌↔◌, ◌<◌, refl, subst, true, Memᴰ, mem-keep_if, keep_if-mem, All-mem, max_by-mem,
  max_by-above, max_by-none, Option-cases, some_inj, Ordering, IsPreorder, eq_iff, string_eq, false,
  not, ◌&&◌, some, List, [], arith, nat_eq, contains, dedup, keep_if, sort_by, max_by, leb,
  nat_beq_iff, inl, inr,
}
use pingora_mesh.Base.Contains.{contains-keep_if, contains-sort_by, contains-dedup}
use pingora_mesh.Base.Order.{
  cmp_str, IsCmp-IsPreorder, IsCmp-then_with, IsCmp-key, IsCmp-compare, IsCmp-cmp_str,
}
use pingora_mesh.Domain.{Uuid}
use pingora_mesh.Hub.Records.{ReleaseRecord}
use pingora_mesh.Hub.Memory.{MemoryState}
use pingora_mesh.Hub.Memory.Releases.{list_releases}
use pingora_mesh.Hub.Service.Releases.{is_release_of, le_created, detached_node_ids_for_site}

-- A release of the site.
abbrev pub IsSiteRelease : Uuid → ReleaseRecord → Type 0
IsSiteRelease site_id release = (release.scope_type ≡ "site") × (release.scope_id ≡ some site_id)

-- A release is older than another, or of the same time and of no greater version.
abbrev pub IsNoLater : ReleaseRecord → ReleaseRecord → Type 0
IsNoLater r last =
    (r.created_at < last.created_at)
    ⊎ ((r.created_at ≡ last.created_at)
        × (cmp_str r.release_version last.release_version ≢ Ordering.gt))

-- The last release of a site.
abbrev pub IsLast : Uuid → List ReleaseRecord → ReleaseRecord → Type 0
IsLast site_id releases last =
    Memᴰ last releases
    × IsSiteRelease site_id last
    × ((r : ReleaseRecord) → Memᴰ r releases → IsSiteRelease site_id r → IsNoLater r last)

is_release_of_iff :
    (site_id : Uuid) (release : ReleaseRecord)
    → (is_release_of site_id release ≡ true) ↔ IsSiteRelease site_id release
is_release_of_iff site_id release = elim (Option-cases release.scope_id) [
  | inl e ↦ (λ h. absurd (ground (arith, e, h)), λ k. absurd (cc (e, k.1)))
  | inr (id, e) ↦ (
    λ h. ground (arith, e, rw e at h, nat_beq_iff id site_id, eq_iff release.scope_type "site"),
    λ k. rw e (
        ground (
          arith,
          e,
          k.0,
          k.1,
          some_inj (rw e at k.1),
          nat_beq_iff id site_id,
          eq_iff release.scope_type "site",
        )),
  )
]

le_created-IsNoLater : (r last : ReleaseRecord) → le_created r last ≡ true → IsNoLater r last
le_created-IsNoLater r last h = ground arith

le_created-IsPreorder : IsPreorder le_created
le_created-IsPreorder = IsCmp-IsPreorder _ (
    IsCmp-then_with _ _ (IsCmp-key (λ (r : ReleaseRecord). r.created_at) _ IsCmp-compare)
      (IsCmp-key (λ (r : ReleaseRecord). r.release_version) _ IsCmp-cmp_str))

max_by-IsLast :
    (site_id : Uuid) (releases : List ReleaseRecord) (last : ReleaseRecord)
    → max_by le_created (keep_if (is_release_of site_id) releases) ≡ some last
    → IsLast site_id releases last
max_by-IsLast site_id releases last e =
    let own = keep_if (is_release_of site_id) releases in
    let (passes, member) =
      mem-keep_if (is_release_of site_id) last releases (max_by-mem le_created own last e) in
    (
      member,
      (is_release_of_iff site_id last).0 passes,
      λ r m of_site. le_created-IsNoLater r last (
          All-mem (λ d. le_created d last ≡ true) r own
            (max_by-above le_created le_created-IsPreorder own last e)
            (keep_if-mem (is_release_of site_id) r releases m
              ((is_release_of_iff site_id r).1 of_site))),
    )

nil-none :
    (site_id : Uuid) (releases : List ReleaseRecord) (r : ReleaseRecord)
    → keep_if (is_release_of site_id) releases ≡ []
    → Memᴰ r releases
    → IsSiteRelease site_id r
    → ⊥
nil-none site_id releases r e m of_site =
    elim (subst (λ own. Memᴰ r own) e
      (keep_if-mem (is_release_of site_id) r releases m
        ((is_release_of_iff site_id r).1 of_site))) [ ]

-- The targets of a release that are no targets any more.
contains-left :
    (n : Uuid) (current targets : List Uuid)
    → contains n (dedup (sort_by leb (keep_if (λ id. not (contains id current)) targets)))
      ≡ (contains n targets && not (contains n current))
contains-left n current targets =
    let gone = keep_if (λ id. not (contains id current)) targets in
    ground (
      arith,
      contains-dedup n (sort_by leb gone),
      contains-sort_by leb n gone,
      contains-keep_if (λ id. not (contains id current)) n targets,
    )

-- A site without a release leaves no node behind. Otherwise there is a release of the site that no
-- other is later than, by the time and at the same time by the version, and a node is left behind by
-- the site's new targets exactly when that release had it as a target and they do not have it.
pub detached_node_ids_for_site-contains :
    (site_id n : Uuid) (current : List Uuid) (repo : MemoryState)
    → (((r : ReleaseRecord) → Memᴰ r (list_releases repo) → IsSiteRelease site_id r → ⊥)
        × (contains n (detached_node_ids_for_site site_id current repo) ≡ false))
      ⊎ ((last : ReleaseRecord) × IsLast site_id (list_releases repo) last
          × (contains n (detached_node_ids_for_site site_id current repo)
              ≡ (contains n last.target_node_ids && not (contains n current))))
unfolding detached_node_ids_for_site contains
detached_node_ids_for_site-contains site_id n current repo =
    let releases = list_releases repo in
    let own = keep_if (is_release_of site_id) releases in
    elim (Option-cases (max_by le_created own)) [
      | inl e ↦ inl (
        λ r m of_site. nil-none site_id releases r (max_by-none le_created own e) m of_site,
        rw (e, detached_node_ids_for_site) refl,
      )
      | inr (last, e) ↦ inr (
        last,
        max_by-IsLast site_id releases last e,
        rw (e, detached_node_ids_for_site) (contains-left n current last.target_node_ids),
      )
    ]
