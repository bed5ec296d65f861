-- ===== src/Hub/Service/Releases/Laws.antt =====
-- A stored release is in order: its status sums up its acknowledgements, and it has one
-- acknowledgement for every target and for no other node.
use pingora_mesh.Base.{
  ◌≡◌, ◌↔◌, refl, String, Bool, true, false, not, ◌||◌, Option, none, some, List, [], ◌∷◌, ok, err,
  arith, nat_eq, contains, keep_if, All, Bool-cases, Option-cases, inl, inr, ◌==◌, nat_beq_iff,
  if◌then◌else◌,
}
use pingora_mesh.Base.Map
use pingora_mesh.Base.Map.{
  Map, get-insert, get-remove, All-insert, All-map_values, All-get, get-empty,
}
use pingora_mesh.Domain.{Uuid, DateTime}
use pingora_mesh.ConfigCompiler.{CompiledConfigBundle}
use pingora_mesh.Hub.Records.{NodeAckRecord, NodeRecord, ReleaseRecord}
use pingora_mesh.Hub.Memory.{MemoryState}
use pingora_mesh.Hub.Memory.Nodes.{delete_node, drop_target, save_node}
use pingora_mesh.Hub.Memory.ReleaseStatus.{aggregate_release_status}
use pingora_mesh.Hub.Memory.Releases.{acknowledge, save_release, find_release, update_release_ack}
use pingora_mesh.Hub.Service.{AppError, HubState}
use pingora_mesh.Hub.Service.Releases.{
  pending_ack, add_pending, build_release_ack_status, compiled_release, ReleaseAckRequest, ack_of,
  save_version, ack_release,
}

abbrev pub is_some {ℓ} : {A : Type ℓ} → Option A → Bool
is_some none = false
is_some (some a) = true

pub record IsRelease (release : ReleaseRecord) : Type 0 where
  pub status : release.status ≡ aggregate_release_status release.ack_status
  pub acks :
      (n : Uuid) → is_some (Map.get n release.ack_status) ≡ contains n release.target_node_ids

abbrev pub AreReleases : MemoryState → Type 0
AreReleases repo = All IsRelease (Map.values repo.releases)

get-add_pending :
    (n : Uuid) (targets : List Uuid) (acks : Map Uuid NodeAckRecord)
    → is_some (Map.get n (add_pending targets acks))
      ≡ (contains n targets || is_some (Map.get n acks))
unfolding add_pending contains
get-add_pending n [] acks = refl
get-add_pending n (id ∷ targets) acks = ground (
  arith,
  get-add_pending n targets (Map.insert id pending_ack acks),
  get-insert id n pending_ack acks,
)

pub compiled_release-IsRelease :
    (now : DateTime) (scope_type : String) (scope_id : Option Uuid) (release_type reason : String)
    (bundle : CompiledConfigBundle) (targets : List Uuid)
    → IsRelease (compiled_release now scope_type scope_id release_type reason bundle targets)
unfolding compiled_release build_release_ack_status
compiled_release-IsRelease now scope_type scope_id release_type reason bundle targets = record {
  status = refl;
  acks = λ n. ground (arith, get-add_pending n targets Map.empty, get-empty {V = NodeAckRecord} n);
}

acknowledge-IsRelease :
    (n : Uuid) (ack : NodeAckRecord) (release : ReleaseRecord)
    → contains n release.target_node_ids ≡ true
    → IsRelease release
    → IsRelease (acknowledge n ack release)
acknowledge-IsRelease n ack release target h = record {
  status = refl;
  acks = λ j. elim (Bool-cases (n == j)) [
    | inl e ↦
        let same : n ≡ j = (nat_beq_iff n j).0 e in
        ground (arith, get-insert n j ack release.ack_status, rw same at target)
    | inr e ↦ ground (arith, get-insert n j ack release.ack_status, h.acks j)
  ];
}

contains-keep_if :
    (node j : Uuid) (ids : List Uuid)
    → contains j (keep_if (λ id. not (id == node)) ids)
      ≡ (if j == node then false else contains j ids)
unfolding contains keep_if
contains-keep_if node j [] = ground arith
contains-keep_if node j (id ∷ ids) = ground (arith, contains-keep_if node j ids)

drop_target-IsRelease :
    (node : Uuid) (release : ReleaseRecord)
    → IsRelease release
    → IsRelease (drop_target node release)
drop_target-IsRelease node release h = record {
  status = refl;
  acks = λ j. ground (
    arith,
    get-remove node j release.ack_status,
    contains-keep_if node j release.target_node_ids,
    h.acks j,
  );
}

pub save_release-AreReleases :
    (release : ReleaseRecord) (repo : MemoryState)
    → IsRelease release
    → AreReleases repo
    → AreReleases (save_release release repo)
unfolding save_release
save_release-AreReleases release repo h all =
    All-insert IsRelease release.release_id release repo.releases h all

pub delete_node-AreReleases :
    (node : Uuid) (repo : MemoryState) → AreReleases repo → AreReleases (delete_node node repo)
unfolding delete_node Map.values
delete_node-AreReleases node repo all = elim (Option-cases (Map.get node repo.nodes)) [
  | inl e ↦ rw (e, delete_node) all
  | inr (row, e) ↦
      rw (e, delete_node)
        (All-map_values IsRelease (drop_target node) repo.releases (drop_target-IsRelease node) all)
]

update_release_ack-AreReleases :
    (release_id n : Uuid) (ack : NodeAckRecord) (release : ReleaseRecord) (repo : MemoryState)
    → find_release release_id repo ≡ some release
    → contains n release.target_node_ids ≡ true
    → AreReleases repo
    → AreReleases (update_release_ack release_id n ack repo)
unfolding find_release update_release_ack Map.values
update_release_ack-AreReleases release_id n ack release repo found target all =
    rw (found, update_release_ack)
      (All-insert IsRelease release_id (acknowledge n ack release) repo.releases
        (acknowledge-IsRelease n ack release target
          (All-get IsRelease release_id repo.releases release found all))
        all)

save_version-releases :
    (now : DateTime) (version : String) (node : Option NodeRecord) (repo : MemoryState)
    → (save_version now version node repo).releases ≡ repo.releases
unfolding save_node
save_version-releases now version none repo = refl
save_version-releases now version (some node) repo = refl

-- Whatever a node sends as an acknowledgement, the stored releases stay in order.
pub ack_release-AreReleases :
    (acked_at now : DateTime) (release_id : Uuid) (request : ReleaseAckRequest) (hub : HubState)
    → AreReleases hub.repo
    → AreReleases (ack_release acked_at now release_id request hub).1.repo
unfolding ack_release Map.values
ack_release-AreReleases acked_at now release_id request hub all =
    elim (Option-cases (find_release release_id hub.repo)) [
      | inl e ↦ rw (e, ack_release) all
      | inr (release, e) ↦ elim (Bool-cases (contains request.node_id release.target_node_ids)) [
        | inl target ↦
            rw (e, target, ack_release, save_version-releases)
              (update_release_ack-AreReleases release_id request.node_id (ack_of acked_at request)
                release hub.repo e target all)
        | inr away ↦ rw (e, away, ack_release) all
      ]
    ]

-- An acknowledgement is accepted exactly from a target of a known release; a request that is
-- refused changes nothing.
pub ack_release_iff :
    (acked_at now : DateTime) (release_id : Uuid) (request : ReleaseAckRequest) (hub : HubState)
    → let (result, after) = ack_release acked_at now release_id request hub in
      ((result
          ≡ ok (record {
            release_id = release_id;
            node_id = request.node_id;
            apply_status = request.apply_status;
          }))
        ↔ ((release : ReleaseRecord) × (find_release release_id hub.repo ≡ some release)
            × (contains request.node_id release.target_node_ids ≡ true)))
      × ((e : AppError) → result ≡ err e → after ≡ hub)
unfolding ack_release
ack_release_iff acked_at now release_id request hub = ground arith
