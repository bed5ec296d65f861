-- ===== src/Hub/Service/Publish/Laws.antt =====
-- What the making of a release leaves alone, and what it keeps in order.
use pingora_mesh.Base.{
  ◌≡◌, ◌∙◌, refl, String, Option, some, List, ok, map, map_err, is_empty, inl, inr, Preorder, Keeps,
  lift-Keeps, gets-Keeps, bind-Keeps, Bool-cases, pure,
}
use pingora_mesh.Domain.{Uuid, DateTime}
use pingora_mesh.ReleasePlanner.{build_release_version}
use pingora_mesh.ConfigCompiler.{CompiledConfigBundle, compile_site_bundle}
use pingora_mesh.Hub.Records.{SiteRecord}
use pingora_mesh.Hub.Memory.Releases.{save_release}
use pingora_mesh.Hub.Memory.Sites.{site_certificates}
use pingora_mesh.Hub.Service.{AppError, HubState, Texts}
use pingora_mesh.Hub.Service.AppError.{internal}
use pingora_mesh.Hub.Service.Releases.{SavedRelease, save_compiled_release}
use pingora_mesh.Hub.Service.Releases.Laws.{
  AreReleases, compiled_release-IsRelease, save_release-AreReleases,
}
use pingora_mesh.Hub.Service.Publish.{
  ReleaseDraw, next_serial, target_of, bound_nodes, to_spec, save_site_release,
  save_site_cleanup_release, primary_release, cleanup_release,
}

-- Only the releases and the counter may differ, and the releases stay in order.
pub record OnlyReleases (hub after : HubState) : Type 0 where
  pub nodes : after.repo.nodes ≡ hub.repo.nodes
  pub sites : after.repo.sites ≡ hub.repo.sites
  pub tokens : after.tokens ≡ hub.tokens
  pub releases : AreReleases hub.repo → AreReleases after.repo

pub OnlyReleases-order : Preorder OnlyReleases
OnlyReleases-order = record {
  same = λ hub. record { nodes = refl; sites = refl; tokens = refl; releases = λ h. h };
  after = λ hub middle last h k. record {
    nodes = k.nodes ∙ h.nodes;
    sites = k.sites ∙ h.sites;
    tokens = k.tokens ∙ h.tokens;
    releases = λ r. k.releases (h.releases r);
  };
}

next_serial-Keeps : Keeps OnlyReleases next_serial
unfolding Keeps next_serial
next_serial-Keeps hub = record { nodes = refl; sites = refl; tokens = refl; releases = λ h. h }

save_compiled_release-Keeps :
    (now : DateTime) (scope_type : String) (scope_id : Option Uuid) (release_type reason : String)
    (bundle : CompiledConfigBundle) (targets : List Uuid)
    → Keeps OnlyReleases
        (save_compiled_release now scope_type scope_id release_type reason bundle targets)
unfolding Keeps save_compiled_release save_release
save_compiled_release-Keeps now scope_type scope_id release_type reason bundle targets hub =
    record {
      nodes = refl;
      sites = refl;
      tokens = refl;
      releases =
          save_release-AreReleases _ hub.repo
            (compiled_release-IsRelease now scope_type scope_id release_type reason bundle targets);
    }

module _ (texts : Texts) (draw : ReleaseDraw) (site : SiteRecord) where
  pub save_site_release-Keeps :
      (release_type reason : String)
      → Keeps OnlyReleases (save_site_release texts draw site release_type reason)
  unfolding save_site_release
  save_site_release-Keeps release_type reason =
      bind-Keeps OnlyReleases OnlyReleases-order _ _ (lift-Keeps OnlyReleases OnlyReleases-order _)
        (λ _. bind-Keeps OnlyReleases OnlyReleases-order _ _ next_serial-Keeps (λ serial.
          bind-Keeps OnlyReleases OnlyReleases-order _ _
            (gets-Keeps OnlyReleases OnlyReleases-order AppError
              (λ hub. site_certificates site.id hub.repo))
            (λ certificates.
              bind-Keeps OnlyReleases OnlyReleases-order _ _
                (lift-Keeps OnlyReleases OnlyReleases-order (
                  map_err internal (
                    compile_site_bundle texts.uuid_text draw.release_id draw.compiled_at
                      (to_spec texts site) certificates (map (target_of site) site.bindings)
                      (build_release_version texts.timestamp "site" draw.versioned_at serial))))
                (λ bundle.
                  save_compiled_release-Keeps draw.created_at "site" (some site.id) release_type
                    reason bundle (bound_nodes site)))))

  pub save_site_cleanup_release-Keeps :
      (detached : List Uuid) (reason : String)
      → Keeps OnlyReleases (save_site_cleanup_release texts draw site detached reason)
  unfolding save_site_cleanup_release
  save_site_cleanup_release-Keeps detached reason =
      bind-Keeps OnlyReleases OnlyReleases-order _ _ next_serial-Keeps (λ serial.
        bind-Keeps OnlyReleases OnlyReleases-order _ _
          (lift-Keeps OnlyReleases OnlyReleases-order _)
          (λ bundle.
            save_compiled_release-Keeps draw.created_at "site_cleanup" (some site.id) "cleanup" _
              bundle detached))

  pub primary_release-Keeps :
      (release_type reason : String)
      → Keeps OnlyReleases (primary_release texts draw site release_type reason)
  unfolding primary_release Keeps
  primary_release-Keeps release_type reason hub = elim (Bool-cases (is_empty (bound_nodes site))) [
    | inl none_bound ↦ rw (none_bound) (OnlyReleases-order.same hub)
    | inr some_bound ↦ rw (some_bound) (
        bind-Keeps OnlyReleases OnlyReleases-order
          (save_site_release texts draw site release_type reason)
          (λ (saved : SavedRelease). pure (some saved))
          (save_site_release-Keeps release_type reason)
          (λ saved. lift-Keeps {E = AppError} OnlyReleases OnlyReleases-order (ok (some saved)))
          hub)
  ]

  pub cleanup_release-Keeps :
      (detached : List Uuid) (reason : String)
      → Keeps OnlyReleases (cleanup_release texts draw site detached reason)
  unfolding cleanup_release Keeps
  cleanup_release-Keeps detached reason hub = elim (Bool-cases (is_empty detached)) [
    | inl none_left ↦ rw (none_left) (OnlyReleases-order.same hub)
    | inr some_left ↦ rw (some_left) (
        bind-Keeps OnlyReleases OnlyReleases-order
          (save_site_cleanup_release texts draw site detached reason)
          (λ (saved : SavedRelease). pure (some saved))
          (save_site_cleanup_release-Keeps detached reason)
          (λ saved. lift-Keeps {E = AppError} OnlyReleases OnlyReleases-order (ok (some saved)))
          hub)
  ]
