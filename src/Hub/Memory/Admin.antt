-- ===== src/Hub/Memory/Admin.antt =====
-- The methods of `MemoryRepository` on administrators and their sessions.
pub mod Laws
use pingora_mesh.Base.{String, Bool, false, not, ◌||◌, Option, none, some, ◌==◌, nat_eq, string_eq}
use pingora_mesh.Base.Map
use pingora_mesh.Domain.{Uuid, DateTime}
use pingora_mesh.Hub.Records.{AdminUserRecord, AdminSessionRecord, AdminSessionContext}
use pingora_mesh.Hub.Memory.{MemoryState}

unfoldable pub save_admin_user : AdminUserRecord → MemoryState → MemoryState
save_admin_user user state = record state {
  admin_user_ids_by_username =
      Map.insert user.username user.user_id state.admin_user_ids_by_username;
  admin_users = Map.insert user.user_id user state.admin_users;
}

unfoldable pub admin_user_by_username : String → MemoryState → Option AdminUserRecord
admin_user_by_username username state = elim (Map.get username state.admin_user_ids_by_username) [
  | none ↦ none
  | some user_id ↦ Map.get user_id state.admin_users
]

unfoldable pub touch_admin_user_login : Uuid → DateTime → MemoryState → MemoryState
touch_admin_user_login user_id last_login_at state = elim (Map.get user_id state.admin_users) [
  | none ↦ state
  | some user ↦ record state {
    admin_users =
        Map.insert user_id (record user { last_login_at = some last_login_at }) state.admin_users;
  }
]

unfoldable pub save_admin_session : AdminSessionRecord → MemoryState → MemoryState
save_admin_session session state = record state {
  admin_sessions = Map.insert session.session_token_hash session state.admin_sessions;
}

-- A session whose user is gone is no session.
unfoldable pub admin_session_by_token_hash : String → MemoryState → Option AdminSessionContext
admin_session_by_token_hash session_token_hash state =
    elim (Map.get session_token_hash state.admin_sessions) [
      | none ↦ none
      | some session ↦ elim (Map.get session.user_id state.admin_users) [
        | none ↦ none
        | some user ↦ some (record {
          user_id = user.user_id;
          username = user.username;
          display_name = user.display_name;
          status = user.status;
          expires_at = session.expires_at;
        })
      ]
    ]

unfoldable pub touch_admin_session : String → DateTime → MemoryState → MemoryState
touch_admin_session session_token_hash last_seen_at state =
    elim (Map.get session_token_hash state.admin_sessions) [
      | none ↦ state
      | some session ↦ record state {
        admin_sessions =
            Map.insert session_token_hash (record session { last_seen_at = last_seen_at })
              state.admin_sessions;
      }
    ]

unfoldable pub delete_admin_session : String → MemoryState → MemoryState
delete_admin_session session_token_hash state = record state {
  admin_sessions = Map.remove session_token_hash state.admin_sessions;
}

abbrev pub is_excluded : String → Option String → Bool
is_excluded session_token_hash none = false
is_excluded session_token_hash (some excluded) = session_token_hash == excluded

unfoldable pub delete_admin_sessions_for_user : Uuid → Option String → MemoryState → MemoryState
delete_admin_sessions_for_user user_id exclude_session_token_hash state = record state {
  admin_sessions =
      Map.retain
        (λ session_token_hash session.
          not (session.user_id == user_id)
          || is_excluded session_token_hash exclude_session_token_hash)
        state.admin_sessions;
}
