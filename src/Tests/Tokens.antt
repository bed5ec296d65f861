-- ===== src/Tests/Tokens.antt =====
-- The hub on the secrets of one node. A hash that leaves a text as it is stands in for Sha-256.
use pingora_mesh.Base.{
  All, ◌+◌, ◌≤◌, ◌≡◌, ◌≢◌, ◌↔◌, ◌⊎◌, refl, String, true, none, some, [], ◌∷◌, ok, err, arith,
  eq_iff, nat_beq_iff, if◌then◌else◌, ◌==◌, nat_eq, keep_if, any, sort_by, dedup,
}
use pingora_mesh.Base.Map
use pingora_mesh.Json.{object, end}
use pingora_mesh.Domain.{Uuid, DateTime, pending}
use pingora_mesh.Hub.Records.{NodeRecord}
use pingora_mesh.Hub.Memory.{no_state}
use pingora_mesh.Hub.Memory.Nodes.{find_node, node_id_by_code, node_delete_guard}
use pingora_mesh.Hub.Tokens.{
  TokenLease, MemoryTokenState, no_tokens, issue_tokens, revoke_tokens, access_lease, refresh_lease,
}
use pingora_mesh.Hub.Tokens.Laws.{
  IsTokenState, NoLease, issue_tokens-IsTokenState, revoke_tokens-IsTokenState,
}
use pingora_mesh.Hub.Service.{HubState}
use pingora_mesh.Hub.Service.AppError.{unauthorized}
use pingora_mesh.Hub.Service.Nodes.{DeleteNodeResponse, remove_node}
use pingora_mesh.Hub.Service.Nodes.Laws.{IsUnbound, remove_node-locked_out}
use pingora_mesh.Hub.Service.Tokens.{
  Draw, NodeRegisterRequest, NodeRegisterResponse, NodeRefreshRequest, NodeRefreshResponse,
  register_node, refresh_node_token, issue_node_tokens, authorize_node, token_ttl,
}
use pingora_mesh.Hub.Service.Tokens.Laws.{
  AreKeyed, authorize_node_iff, register_node_once, register_node-authorize_node,
  refresh_node_token_once,
}

abbrev text : Uuid → String
text id = if id == 4 then "new" else "old"

abbrev digest : String → String
digest s = s

abbrev node : NodeRecord
node = record {
  identity = record {
    id = 1;
    node_code = "edge-1";
    name = "Edge";
    region = "eu";
    idc = "a";
    status = pending;
  };
  runtime = record {
    active_config_version = none;
    last_seen_at = none;
    site_count = 0;
    health_score = 0;
  };
  labels = object end;
  hostname = none;
  public_ip = none;
  private_ip = none;
  bootstrap_token = some "secret";
  pingora_version = none;
  agent_version = none;
}

abbrev hub : HubState
hub = record {
  repo = record no_state { nodes = (1, node) ∷ []; node_ids_by_code = ("edge-1", 1) ∷ [] };
  tokens = no_tokens;
  release_counter = 1;
}

abbrev draw : Draw
draw = record { access_id = 2; refresh_id = 3; issued_at = 10; now = 11 }

abbrev request : NodeRegisterRequest
request = record {
  node_code = "edge-1";
  bootstrap_token = "secret";
  hostname = "host";
  public_ip = none;
  private_ip = none;
  agent_version = "1";
}

abbrev response : NodeRegisterResponse
response = record {
  node_id = 1;
  access_token = "node-at-old";
  refresh_token = "node-rt-old";
  expires_at = 10 + token_ttl;
}

abbrev after : HubState
after = (register_node text digest draw request hub).1

hub_registers : register_node text digest draw request hub ≡ (ok response, after)
unfolding register_node node_id_by_code find_node issue_node_tokens issue_tokens Map.get
hub_registers = refl

no_tokens-IsTokenState : IsTokenState no_tokens
unfolding Map.get
no_tokens-IsTokenState = record {
  access = record { owned = λ t l found. absurd (cc found) };
  refresh = record { owned = λ t l found. absurd (cc found) };
}

hub-AreKeyed : AreKeyed hub.repo
unfolding find_node Map.get
hub-AreKeyed id other found = ground (arith, nat_beq_iff 1 id)

register_node_once_example :
    register_node text digest draw request after
    ≡ (err (unauthorized "bootstrap token already used or unavailable"), after)
register_node_once_example =
    register_node_once text digest draw draw request request response hub after hub-AreKeyed
      hub_registers refl

register_node-authorize_node_example : authorize_node 12 1 "node-at-old" after ≡ (ok tt, after)
register_node-authorize_node_example =
    register_node-authorize_node text digest draw request response hub after 12
      no_tokens-IsTokenState hub-AreKeyed hub_registers (omega arith)

authorize_node_iff_example : (authorize_node 12 1 "node-at-old" after ≡ (ok tt, after)) ↔ (
    (lease : TokenLease) × (access_lease "node-at-old" after.tokens ≡ some lease)
    × (lease.node_id ≡ 1)
    × (12 ≤ lease.expires_at)
    × ((row : NodeRecord) × (find_node 1 after.repo ≡ some row)))
authorize_node_iff_example = authorize_node_iff 12 1 "node-at-old" after

abbrev leased : MemoryTokenState
leased = (issue_tokens text 2 3 10 token_ttl 1 no_tokens).1

leased-IsTokenState : IsTokenState leased
leased-IsTokenState =
    (issue_tokens-IsTokenState text 2 3 10 token_ttl 1 no_tokens no_tokens-IsTokenState).0

abbrev leased_hub : HubState
leased_hub = record hub { tokens = leased }

abbrev refresh_request : NodeRefreshRequest
refresh_request = record { node_id = 1; refresh_token = "node-rt-old" }

abbrev redraw : Draw
redraw = record { access_id = 4; refresh_id = 4; issued_at = 20; now = 20 }

abbrev refreshed : NodeRefreshResponse
refreshed = record {
  node_id = 1;
  access_token = "node-at-new";
  refresh_token = "node-rt-new";
  expires_at = 20 + token_ttl;
}

abbrev refreshed_hub : HubState
refreshed_hub = (refresh_node_token text redraw refresh_request leased_hub).1

leased_refreshes :
    refresh_node_token text redraw refresh_request leased_hub ≡ (ok refreshed, refreshed_hub)
unfolding refresh_node_token refresh_lease issue_node_tokens issue_tokens Map.get Map.insert
leased_refreshes = refl

tokens_differ : refreshed.refresh_token ≢ refresh_request.refresh_token
tokens_differ e = ground (arith, eq_iff "node-rt-new" "node-rt-old")

refresh_node_token_once_example :
    (refresh_node_token text redraw refresh_request refreshed_hub
      ≡ (err (unauthorized "invalid refresh token"), refreshed_hub))
    × ((t : String) (l : TokenLease)
        → access_lease t refreshed_hub.tokens ≡ some l
        → l.node_id ≡ 1
        → t ≡ "node-at-new")
refresh_node_token_once_example =
    refresh_node_token_once text redraw redraw refresh_request refresh_request refreshed leased_hub
      refreshed_hub leased-IsTokenState tokens_differ leased_refreshes refl

issue_tokens-IsTokenState_example :
    let (issued, next) = issue_tokens text 4 4 20 token_ttl 1 leased in
    let lease : TokenLease = record { node_id = 1; expires_at = 20 + token_ttl } in
    IsTokenState next
    × (access_lease issued.access_token next ≡ some lease)
    × (refresh_lease issued.refresh_token next ≡ some lease)
    × ((t : String) (l : TokenLease)
        → access_lease t next ≡ some l
        → (t ≡ issued.access_token) ⊎ ((access_lease t leased ≡ some l) × (l.node_id ≢ 1)))
    × ((t : String) (l : TokenLease)
        → refresh_lease t next ≡ some l
        → (t ≡ issued.refresh_token) ⊎ ((refresh_lease t leased ≡ some l) × (l.node_id ≢ 1)))
issue_tokens-IsTokenState_example =
    issue_tokens-IsTokenState text 4 4 20 token_ttl 1 leased leased-IsTokenState

revoke_tokens-IsTokenState_example :
    IsTokenState (revoke_tokens 1 leased)
    × NoLease 1 (revoke_tokens 1 leased).access
    × NoLease 1 (revoke_tokens 1 leased).refresh
revoke_tokens-IsTokenState_example = revoke_tokens-IsTokenState 1 leased leased-IsTokenState

abbrev removed : HubState
removed = (remove_node 1 leased_hub).1

abbrev removal : DeleteNodeResponse
removal = record { node_id = 1; node_code = "edge-1"; deleted = true }

hub_removes : remove_node 1 leased_hub ≡ (ok removal, removed)
unfolding remove_node find_node node_delete_guard Map.get Map.values keep_if any sort_by dedup
hub_removes = refl

remove_node-locked_out_example :
    All (IsUnbound 1) (Map.values leased_hub.repo.sites)
    × (find_node 1 removed.repo ≡ none)
    × ((t : String) (l : TokenLease) → access_lease t removed.tokens ≡ some l → l.node_id ≢ 1)
    × ((t : String) (l : TokenLease) → refresh_lease t removed.tokens ≡ some l → l.node_id ≢ 1)
    × ((now : DateTime) (t : String) → (authorize_node now 1 t removed).0 ≢ ok tt)
remove_node-locked_out_example =
    remove_node-locked_out 1 removal leased_hub removed leased-IsTokenState hub_removes
