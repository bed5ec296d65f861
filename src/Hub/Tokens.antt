-- ===== src/Hub/Tokens.antt =====
-- `MemoryTokenStore` of apps/hub-api/src/token_store.rs. The two fresh `Uuid`s of a token pair, their
-- text and the time are arguments.
pub mod Laws
use pingora_mesh.Base.{ℕ, ◌+◌, String, Option, none, some, nat_eq, string_eq}
use pingora_mesh.Base.Text.{◌<>◌}
use pingora_mesh.Base.Map
use pingora_mesh.Base.Map.{Map, empty}
use pingora_mesh.Domain.{Uuid, DateTime}

pub record TokenLease : Type 0 where
  pub node_id : Uuid
  pub expires_at : DateTime

pub record IssuedTokens : Type 0 where
  pub access_token : String
  pub refresh_token : String
  pub expires_at : DateTime

pub record MemoryTokenState : Type 0 where
  pub access : Map String TokenLease
  pub refresh : Map String TokenLease
  pub current_access_by_node : Map Uuid String
  pub current_refresh_by_node : Map Uuid String

abbrev pub no_tokens : MemoryTokenState
no_tokens = record {
  access = empty;
  refresh = empty;
  current_access_by_node = empty;
  current_refresh_by_node = empty;
}

abbrev pub drop_access : Uuid → MemoryTokenState → MemoryTokenState
drop_access node_id state = elim (Map.get node_id state.current_access_by_node) [
  | none ↦ state
  | some previous ↦ record state {
    current_access_by_node = Map.remove node_id state.current_access_by_node;
    access = Map.remove previous state.access;
  }
]

abbrev pub drop_refresh : Uuid → MemoryTokenState → MemoryTokenState
drop_refresh node_id state = elim (Map.get node_id state.current_refresh_by_node) [
  | none ↦ state
  | some previous ↦ record state {
    current_refresh_by_node = Map.remove node_id state.current_refresh_by_node;
    refresh = Map.remove previous state.refresh;
  }
]

unfoldable pub revoke_tokens : Uuid → MemoryTokenState → MemoryTokenState
revoke_tokens node_id state = drop_refresh node_id (drop_access node_id state)

module _ (uuid_text : Uuid → String) where
  abbrev pub access_token_of : Uuid → String
  access_token_of id = "node-at-" <> uuid_text id

  abbrev pub refresh_token_of : Uuid → String
  refresh_token_of id = "node-rt-" <> uuid_text id

  -- The tokens that the node had are dropped first.
  unfoldable pub issue_tokens :
      (access_id refresh_id : Uuid) (now ttl : DateTime)
      → Uuid
      → MemoryTokenState
      → IssuedTokens × MemoryTokenState
  issue_tokens access_id refresh_id now ttl node_id state =
      let dropped = drop_refresh node_id (drop_access node_id state) in
      let lease : TokenLease = record { node_id = node_id; expires_at = now + ttl } in
      let access_token = access_token_of access_id in
      let refresh_token = refresh_token_of refresh_id in
      (
        record {
          access_token = access_token;
          refresh_token = refresh_token;
          expires_at = now + ttl;
        },
        record {
          access = Map.insert access_token lease dropped.access;
          refresh = Map.insert refresh_token lease dropped.refresh;
          current_access_by_node = Map.insert node_id access_token dropped.current_access_by_node;
          current_refresh_by_node =
              Map.insert node_id refresh_token dropped.current_refresh_by_node;
        },
      )

unfoldable pub access_lease : String → MemoryTokenState → Option TokenLease
access_lease access_token state = Map.get access_token state.access

unfoldable pub refresh_lease : String → MemoryTokenState → Option TokenLease
refresh_lease refresh_token state = Map.get refresh_token state.refresh
