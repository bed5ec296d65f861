-- ===== src/Tests/Releases.antt =====
-- The hub on a release to one node, from an empty hub.
use pingora_mesh.Base.{
  ◌+◌, ◌≡◌, ◌⊎◌, Memᴰ, ◌↔◌, nat_eq, String, true, false, not, ◌&&◌, none, some, List, [], ◌∷◌, ok,
  err, length, contains,
}
use pingora_mesh.Base.Map
use pingora_mesh.Base.Map.{Map}
use pingora_mesh.Json.{object, end}
use pingora_mesh.Domain.{Uuid}
use pingora_mesh.ConfigCompiler.{CompiledConfigBundle}
use pingora_mesh.Hub.Records.{NodeAckRecord, ReleaseRecord}
use pingora_mesh.Hub.Memory.{no_state}
use pingora_mesh.Hub.Memory.Nodes.{find_node}
use pingora_mesh.Hub.Memory.Releases.{find_release, list_releases}
use pingora_mesh.Hub.Memory.ReleaseStatus.{aggregate_release_status, summarize_release_counts}
use pingora_mesh.Hub.Memory.ReleaseStatus.Laws.{aggregate-summarize, status_of_counts}
use pingora_mesh.Hub.Tokens.{no_tokens}
use pingora_mesh.Hub.Service.{AppError, HubState, Texts}
use pingora_mesh.Hub.Service.Releases.{
  pending_ack, save_compiled_release, ack_release, ReleaseAckRequest, detached_node_ids_for_site,
}
use pingora_mesh.Hub.Service.Releases.Laws.{ack_release_iff}
use pingora_mesh.Hub.Service.Releases.Detached.{
  IsSiteRelease, IsLast, detached_node_ids_for_site-contains,
}
use pingora_mesh.Hub.Service.Requests.{Reaches}
use pingora_mesh.Hub.Service.Requests.Request.{publish, ack}
use pingora_mesh.Hub.Service.Requests.Reaches.{start, next}
use pingora_mesh.Hub.Service.Requests.Keyed.{IsHub}
use pingora_mesh.Hub.Service.Requests.Invariant.{Reaches-IsHub}

abbrev text : Uuid → String
text id = "node"

abbrev texts : Texts
texts = record { uuid_text = text; timestamp = λ t. "20240101000000"; to_lowercase = λ s. s }

abbrev digest : String → String
digest s = s

abbrev empty_hub : HubState
empty_hub = record { repo = no_state; tokens = no_tokens; release_counter = 1 }

abbrev bundle : CompiledConfigBundle
bundle = record {
  manifest = record {
    release_id = 5;
    release_version = "rel-site-1";
    scope = "site";
    config_hash = "sha256:site";
    created_at = 1;
    sites = [];
    certificates = [];
    targets = [];
  };
  rendered_config = object end;
  certificates = [];
  signature = "sig";
}

abbrev published : HubState
published =
    (save_compiled_release 1 "site" (some 7) "publish" "first" bundle (1 ∷ 2 ∷ []) empty_hub).1

abbrev request : ReleaseAckRequest
request = record {
  node_id = 1;
  apply_status = "success";
  current_version = "rel-site-1";
  message = none;
}

abbrev acknowledged : HubState
acknowledged = (ack_release 2 2 5 request published).1

empty_hub-IsHub : IsHub empty_hub
unfolding Map.get Map.values find_node
empty_hub-IsHub = record {
  tokens = record {
    access = record { owned = λ t l found. absurd (cc found) };
    refresh = record { owned = λ t l found. absurd (cc found) };
  };
  nodes = λ id node found. absurd (cc found);
  releases = tt;
}

published_and_acknowledged : Reaches texts digest empty_hub acknowledged
published_and_acknowledged =
    next published acknowledged
      (next empty_hub published start
        (publish 1 "site" (some 7) "publish" "first" bundle (1 ∷ 2 ∷ [])))
      (ack 2 2 5 request)

Reaches-IsHub_example : IsHub acknowledged
Reaches-IsHub_example =
    Reaches-IsHub texts digest empty_hub acknowledged published_and_acknowledged empty_hub-IsHub

ack_release_iff_example :
    let (result, after) = ack_release 2 2 5 request published in
    ((result ≡ ok (record { release_id = 5; node_id = 1; apply_status = "success" })) ↔ (
      (release : ReleaseRecord) × (find_release 5 published.repo ≡ some release)
      × (contains 1 release.target_node_ids ≡ true)))
    × ((e : AppError) → result ≡ err e → after ≡ published)
ack_release_iff_example = ack_release_iff 2 2 5 request published

abbrev acks : Map Uuid NodeAckRecord
acks = (1, record pending_ack { apply_status = "success" }) ∷ (2, pending_ack) ∷ []

aggregate-summarize_example :
    (aggregate_release_status acks ≡ status_of_counts (summarize_release_counts acks))
    × (let c = summarize_release_counts acks in
        c.success + c.failed + c.in_progress + c.pending ≡ length (Map.values acks))
aggregate-summarize_example = aggregate-summarize acks

abbrev targets : List Uuid
targets = 1 ∷ 3 ∷ []

detached_node_ids_for_site-contains_example :
    (((r : ReleaseRecord) → Memᴰ r (list_releases published.repo) → IsSiteRelease 7 r → ⊥)
      × (contains 2 (detached_node_ids_for_site 7 targets published.repo) ≡ false))
    ⊎ ((last : ReleaseRecord) × IsLast 7 (list_releases published.repo) last
        × (contains 2 (detached_node_ids_for_site 7 targets published.repo)
            ≡ (contains 2 last.target_node_ids && not (contains 2 targets))))
detached_node_ids_for_site-contains_example =
    detached_node_ids_for_site-contains 7 2 targets published.repo
