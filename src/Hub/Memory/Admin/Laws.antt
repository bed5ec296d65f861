-- ===== src/Hub/Memory/Admin/Laws.antt =====
-- Which sessions of an administrator outlive a deletion of the administrator's sessions.
use pingora_mesh.Base.{
  ◌≡◌, ◌≢◌, ◌⊎◌, String, true, Option, none, some, inl, inr, arith, nat_eq, string_eq, eq_iff,
  nat_beq_iff, not, Bool, Bool-cases, ap, sym, ◌↔◌, ◌||◌, ◌==◌,
}
use pingora_mesh.Base.Map
use pingora_mesh.Base.Map.{get-retain, retain-get}
use pingora_mesh.Domain.{Uuid}
use pingora_mesh.Hub.Records.{AdminSessionRecord}
use pingora_mesh.Hub.Memory.{MemoryState}
use pingora_mesh.Hub.Memory.Admin.{is_excluded, delete_admin_sessions_for_user}

stays_iff :
    (user_id : Uuid) (excluded : Option String) (token : String) (session : AdminSessionRecord)
    → ((not (session.user_id == user_id) || is_excluded token excluded) ≡ true)
      ↔ ((session.user_id ≢ user_id) ⊎ (excluded ≡ some token))
stays_iff user_id none token session = (
  λ h. inl (λ own. ground arith),
  λ h. elim h [
    | inl other ↦ ground (arith, nat_beq_iff session.user_id user_id)
    | inr k ↦ ground arith
  ],
)
stays_iff user_id (some kept) token session = (
  λ h. elim (Bool-cases (token == kept)) [
    | inl e ↦ inr (ap some (sym ((eq_iff token kept).0 e)))
    | inr e ↦ inl (λ own. ground arith)
  ],
  λ h. elim h [
    | inl other ↦ ground (arith, nat_beq_iff session.user_id user_id)
    | inr k ↦ ground (arith, eq_iff token kept)
  ],
)

-- After the sessions of a user are deleted, a session of this user is found only under the excluded
-- token, and a session that was found before is still found if it belongs to another user or to the
-- excluded token.
pub delete_admin_sessions_for_user-keeps :
    (user_id : Uuid) (excluded : Option String) (token : String) (session : AdminSessionRecord)
    (state : MemoryState)
    → let after = delete_admin_sessions_for_user user_id excluded state in
      (Map.get token after.admin_sessions ≡ some session
        → session.user_id ≡ user_id
        → excluded ≡ some token)
      × (Map.get token state.admin_sessions ≡ some session
          → (session.user_id ≢ user_id) ⊎ (excluded ≡ some token)
          → Map.get token after.admin_sessions ≡ some session)
unfolding delete_admin_sessions_for_user
delete_admin_sessions_for_user-keeps user_id excluded token session state =
    let test : String → AdminSessionRecord → Bool =
      λ t s. not (s.user_id == user_id) || is_excluded t excluded in
    let stays = stays_iff user_id excluded token session in
    (
      λ found own. elim (stays.0 (get-retain test token session state.admin_sessions found)) [
        | inl other ↦ absurd (other own)
        | inr kept ↦ kept
      ],
      λ found keep. retain-get test token session state.admin_sessions found (stays.1 keep),
    )
