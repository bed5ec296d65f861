-- ===== src/Hub/Service/Releases.antt =====
-- The releases of service.rs: how one is stored, which nodes it leaves behind, and how a node
-- acknowledges it.
pub mod Laws
pub mod Detached
use pingora_mesh.Base.{
  String, Bool, not, ◌&&◌, Option, none, some, List, [], ◌∷◌, ◌==◌, nat_eq, string_eq, contains,
  dedup, keep_if, sort_by, max_by, leb, Result, ok, err, ok_or, ◌>>=◌, ◌>>◌, pure, lift, gets,
  ensure,
}
use pingora_mesh.Base.Order.{le_of, then_with, compare, cmp_str}
use pingora_mesh.Base.Map
use pingora_mesh.Base.Map.{Map, empty}
use pingora_mesh.Domain.{Uuid, DateTime}
use pingora_mesh.ConfigCompiler.{CompiledConfigBundle}
use pingora_mesh.Hub.Records.{NodeAckRecord, NodeRecord, ReleaseRecord}
use pingora_mesh.Hub.Memory.{MemoryState}
use pingora_mesh.Hub.Memory.Nodes.{find_node, save_node}
use pingora_mesh.Hub.Memory.ReleaseStatus.{aggregate_release_status}
use pingora_mesh.Hub.Memory.Releases.{save_release, find_release, list_releases, update_release_ack}
use pingora_mesh.Hub.Service.{AppError, HubState, Handler, write}
use pingora_mesh.Hub.Service.AppError.{not_found, unauthorized}

abbrev pub pending_ack : NodeAckRecord
pending_ack = record {
  apply_status = "pending";
  current_version = none;
  message = none;
  acked_at = none;
}

-- The loop of `build_release_ack_status`, which starts with no acknowledgement.
unfoldable pub add_pending : List Uuid → Map Uuid NodeAckRecord → Map Uuid NodeAckRecord
add_pending [] ack_status = ack_status
add_pending (node_id ∷ node_ids) ack_status =
    add_pending node_ids (Map.insert node_id pending_ack ack_status)

unfoldable pub build_release_ack_status : List Uuid → Map Uuid NodeAckRecord
build_release_ack_status target_node_ids = add_pending target_node_ids empty

pub record SavedRelease : Type 0 where
  pub release_id : Uuid
  pub release_version : String
  pub config_hash : String
  pub target_node_ids : List Uuid

-- The row of a release that is created at `now`.
unfoldable pub compiled_release :
    (now : DateTime) (scope_type : String) (scope_id : Option Uuid) (release_type reason : String)
    → CompiledConfigBundle
    → List Uuid
    → ReleaseRecord
compiled_release now scope_type scope_id release_type reason bundle target_node_ids =
    let ack_status = build_release_ack_status target_node_ids in
    record {
      release_id = bundle.manifest.release_id;
      scope_type = scope_type;
      scope_id = scope_id;
      release_type = release_type;
      release_version = bundle.manifest.release_version;
      reason = reason;
      status = aggregate_release_status ack_status;
      bundle = bundle;
      target_node_ids = target_node_ids;
      ack_status = ack_status;
      created_at = now;
    }

unfoldable pub save_compiled_release :
    (now : DateTime) (scope_type : String) (scope_id : Option Uuid) (release_type reason : String)
    → CompiledConfigBundle
    → List Uuid
    → Handler SavedRelease
save_compiled_release now scope_type scope_id release_type reason bundle target_node_ids = do
  write (
      save_release
        (compiled_release now scope_type scope_id release_type reason bundle target_node_ids))
  pure (record {
    release_id = bundle.manifest.release_id;
    release_version = bundle.manifest.release_version;
    config_hash = bundle.manifest.config_hash;
    target_node_ids = target_node_ids;
  })

abbrev pub is_release_of : Uuid → ReleaseRecord → Bool
is_release_of site_id release =
    release.scope_type == "site"
    && elim release.scope_id [ none ↦ Bool.false | some id ↦ id == site_id ]

abbrev pub le_created : ReleaseRecord → ReleaseRecord → Bool
le_created = le_of (λ left right.
    then_with (compare left.created_at right.created_at)
      (cmp_str left.release_version right.release_version))

-- The nodes of the site's last release that are no targets any more.
unfoldable pub detached_node_ids_for_site : Uuid → List Uuid → MemoryState → List Uuid
detached_node_ids_for_site site_id current_target_node_ids repo =
    elim (max_by le_created (keep_if (is_release_of site_id) (list_releases repo))) [
      | none ↦ []
      | some release ↦ dedup (
          sort_by leb
            (keep_if (λ id. not (contains id current_target_node_ids)) release.target_node_ids))
    ]

pub record ReleaseAckRequest : Type 0 where
  pub node_id : Uuid
  pub apply_status : String
  pub current_version : String
  pub message : Option String

pub record ReleaseAckResponse : Type 0 where
  pub release_id : Uuid
  pub node_id : Uuid
  pub apply_status : String

abbrev pub ack_of : DateTime → ReleaseAckRequest → NodeAckRecord
ack_of now request = record {
  apply_status = request.apply_status;
  current_version = some request.current_version;
  message = request.message;
  acked_at = some now;
}

abbrev pub runs : DateTime → String → NodeRecord → NodeRecord
runs now version node = record node {
  runtime = record node.runtime { active_config_version = some version; last_seen_at = some now };
}

-- The node's row follows, where there is one.
abbrev pub save_version : DateTime → String → Option NodeRecord → MemoryState → MemoryState
save_version now version none repo = repo
save_version now version (some node) repo = save_node (runs now version node) repo

unfoldable pub ack_release :
    (acked_at now : DateTime) → Uuid → ReleaseAckRequest → Handler ReleaseAckResponse
ack_release acked_at now release_id request = do
  found ← gets (λ hub. find_release release_id hub.repo)
  release ← lift (ok_or found (not_found "release not found"))
  ensure (contains request.node_id release.target_node_ids)
      (unauthorized "node is not a target of this release")
  write (update_release_ack release_id request.node_id (ack_of acked_at request))
  node ← gets (λ hub. find_node request.node_id hub.repo)
  write (save_version now request.current_version node)
  pure (record {
    release_id = release_id;
    node_id = request.node_id;
    apply_status = request.apply_status;
  })
