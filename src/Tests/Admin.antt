-- ===== src/Tests/Admin.antt =====
-- The hub on two sessions of one administrator.
use pingora_mesh.Base.{◌≡◌, ◌≢◌, ◌⊎◌, String, Option, some, [], ◌∷◌, string_eq}
use pingora_mesh.Base.Map
use pingora_mesh.Hub.Records.{AdminSessionRecord}
use pingora_mesh.Hub.Memory.{MemoryState, no_state}
use pingora_mesh.Hub.Memory.Admin.{delete_admin_sessions_for_user}
use pingora_mesh.Hub.Memory.Admin.Laws.{delete_admin_sessions_for_user-keeps}

abbrev here : String
here = "here"

abbrev excluded : Option String
excluded = some here

abbrev session : AdminSessionRecord
session = record {
  session_id = 1;
  user_id = 9;
  session_token_hash = "here";
  expires_at = 100;
  created_at = 0;
  last_seen_at = 0;
}

abbrev state : MemoryState
state = record no_state {
  admin_sessions =
      ("here", session) ∷ ("there", record session { session_token_hash = "there" }) ∷ [];
}

delete_admin_sessions_for_user-keeps_example :
    let after = delete_admin_sessions_for_user 9 excluded state in
    (Map.get here after.admin_sessions ≡ some session → session.user_id ≡ 9 → excluded ≡ some here)
    × (Map.get here state.admin_sessions ≡ some session
        → (session.user_id ≢ 9) ⊎ (excluded ≡ some here)
        → Map.get here after.admin_sessions ≡ some session)
delete_admin_sessions_for_user-keeps_example =
    delete_admin_sessions_for_user-keeps 9 excluded here session state
