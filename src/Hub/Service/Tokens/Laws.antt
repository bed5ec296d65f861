-- ===== src/Hub/Service/Tokens/Laws.antt =====
-- What the secrets of a node are worth: who is let in, and which secrets a request uses up.
use pingora_mesh.Base.{
  ◌+◌, ◌≤◌, ◌≡◌, ◌≢◌, ◌↔◌, String, none, some, nat_beq_iff, ok, err, inl, inr, Option-cases, arith,
  nat_eq, string_eq, refl,
}
use pingora_mesh.Base.Map.{get-insert}
use pingora_mesh.Domain.{Uuid, DateTime}
use pingora_mesh.Hub.Records.{NodeRecord}
use pingora_mesh.Hub.Memory.{MemoryState}
use pingora_mesh.Hub.Memory.Nodes.{find_node, node_id_by_code, save_node}
use pingora_mesh.Hub.Tokens.{TokenLease, access_lease, refresh_lease, issue_tokens}
use pingora_mesh.Hub.Tokens.Laws.{IsTokenState, issue_tokens-IsTokenState}
use pingora_mesh.Hub.Service.{HubState}
use pingora_mesh.Hub.Service.AppError.{unauthorized}
use pingora_mesh.Hub.Service.Tokens.{
  Draw, NodeRegisterRequest, NodeRegisterResponse, NodeRefreshRequest, NodeRefreshResponse,
  issue_node_tokens, refresh_node_token, register_node, authorize_node, token_ttl, registered,
}

-- A request of a node is let in, with nothing changed, exactly with an access token that is leased
-- to this node and has not expired, and while the node exists.
pub authorize_node_iff :
    (now : DateTime) (node_id : Uuid) (token : String) (hub : HubState)
    → (authorize_node now node_id token hub ≡ (ok tt, hub)) ↔ (
        (lease : TokenLease) × (access_lease token hub.tokens ≡ some lease)
        × (lease.node_id ≡ node_id)
        × (now ≤ lease.expires_at)
        × ((node : NodeRecord) × (find_node node_id hub.repo ≡ some node)))
unfolding authorize_node
authorize_node_iff now node_id token hub = ground (arith)

-- The nodes are stored under their own ids.
abbrev pub AreKeyed : MemoryState → Type 0
AreKeyed repo =
    (id : Uuid) (node : NodeRecord) → find_node id repo ≡ some node → node.identity.id ≡ id

-- A registration that succeeds found the node by its code and gave it tokens; then it saved the node
-- without its bootstrap token.
pub register_node-saved :
    (uuid_text : Uuid → String) (sha256_hex : String → String) (draw : Draw)
    (request : NodeRegisterRequest) (response : NodeRegisterResponse) (hub after : HubState)
    → register_node uuid_text sha256_hex draw request hub ≡ (ok response, after)
    → (node : NodeRecord) × (node_id_by_code request.node_code hub.repo ≡ some response.node_id)
      × (find_node response.node_id hub.repo ≡ some node)
      × (after.repo ≡ save_node (registered draw.now request node) hub.repo)
unfolding register_node issue_node_tokens
register_node-saved uuid_text sha256_hex draw request response hub after done =
    elim (Option-cases (node_id_by_code request.node_code hub.repo)) [
      | inl e ↦ ground arith
      | inr (id, e) ↦
          let known : node_id_by_code request.node_code hub.repo ≡ some response.node_id =
            ground arith in
          elim (Option-cases (find_node response.node_id hub.repo)) [
            | inl e' ↦ ground arith
            | inr (node, e') ↦ (node, known, e', ground arith)
          ]
    ]

-- It issued a new token pair to the node.
pub register_node-issued :
    (uuid_text : Uuid → String) (sha256_hex : String → String) (draw : Draw)
    (request : NodeRegisterRequest) (response : NodeRegisterResponse) (hub after : HubState)
    → register_node uuid_text sha256_hex draw request hub ≡ (ok response, after)
    → (after.tokens
        ≡ (issue_tokens uuid_text draw.access_id draw.refresh_id draw.issued_at token_ttl
            response.node_id hub.tokens).1)
      × (response.access_token
          ≡ (issue_tokens uuid_text draw.access_id draw.refresh_id draw.issued_at token_ttl
              response.node_id hub.tokens).0.access_token)
unfolding register_node issue_node_tokens
register_node-issued uuid_text sha256_hex draw request response hub after done = ground arith

-- A node without a bootstrap token cannot register.
register_node-used :
    (uuid_text : Uuid → String) (sha256_hex : String → String) (draw : Draw)
    (request : NodeRegisterRequest) (hub : HubState) (node_id : Uuid) (node : NodeRecord)
    → node_id_by_code request.node_code hub.repo ≡ some node_id
    → find_node node_id hub.repo ≡ some node
    → node.bootstrap_token ≡ none
    → register_node uuid_text sha256_hex draw request hub
      ≡ (err (unauthorized "bootstrap token already used or unavailable"), hub)
unfolding register_node
register_node-used uuid_text sha256_hex draw request hub node_id node code found used = ground arith

-- A node that is saved under its own id is found by its code as before, and by its id.
save_node-found :
    (id : Uuid) (code : String) (node : NodeRecord) (repo : MemoryState)
    → node.identity.id ≡ id
    → node_id_by_code code repo ≡ some id
    → (node_id_by_code code (save_node node repo) ≡ some id)
      × (find_node id (save_node node repo) ≡ some node)
unfolding save_node find_node node_id_by_code
save_node-found id code node repo own known = ground (
  arith,
  get-insert node.identity.node_code code node.identity.id repo.node_ids_by_code,
  get-insert node.identity.id id node repo.nodes,
  nat_beq_iff id id,
)

-- A bootstrap token is used up by a registration: where the nodes are stored under their own ids,
-- in the state after a registration under a node code, a registration under the same code is
-- refused and changes nothing, whatever token it brings.
pub register_node_once :
    (uuid_text : Uuid → String) (sha256_hex : String → String) (draw again : Draw)
    (request retry : NodeRegisterRequest) (response : NodeRegisterResponse) (hub after : HubState)
    → AreKeyed hub.repo
    → register_node uuid_text sha256_hex draw request hub ≡ (ok response, after)
    → retry.node_code ≡ request.node_code
    → register_node uuid_text sha256_hex again retry after
      ≡ (err (unauthorized "bootstrap token already used or unavailable"), after)
register_node_once uuid_text sha256_hex draw again request retry response hub after keyed done
      same =
    let (node, code, found, saved) =
      register_node-saved uuid_text sha256_hex draw request response hub after done in
    let used = registered draw.now request node in
    let (code', found') =
      save_node-found response.node_id retry.node_code used hub.repo
        (keyed response.node_id node found) (rw same code) in
    register_node-used uuid_text sha256_hex again retry after response.node_id used (rw saved code')
      (rw saved found') refl

-- Where the tokens are the current ones of their nodes and the nodes stored under their own ids, a
-- registration that succeeds hands out an access token that lets the node in until it expires, a
-- day after the tokens were issued.
pub register_node-authorize_node :
    (uuid_text : Uuid → String) (sha256_hex : String → String) (draw : Draw)
    (request : NodeRegisterRequest) (response : NodeRegisterResponse) (hub after : HubState)
    (now : DateTime)
    → IsTokenState hub.tokens
    → AreKeyed hub.repo
    → register_node uuid_text sha256_hex draw request hub ≡ (ok response, after)
    → now ≤ draw.issued_at + token_ttl
    → authorize_node now response.node_id response.access_token after ≡ (ok tt, after)
register_node-authorize_node uuid_text sha256_hex draw request response hub after now h keyed done
      time =
    let (node, code, found, saved) =
      register_node-saved uuid_text sha256_hex draw request response hub after done in
    let (tokens, access) =
      register_node-issued uuid_text sha256_hex draw request response hub after done in
    let (_, live, _, _, _) =
      issue_tokens-IsTokenState uuid_text draw.access_id draw.refresh_id draw.issued_at token_ttl
        response.node_id hub.tokens h in
    let used = registered draw.now request node in
    let (_, found') =
      save_node-found response.node_id request.node_code used hub.repo
        (keyed response.node_id node found) code in
    (authorize_node_iff now response.node_id response.access_token after).1
      (_, rw (tokens, access) live, refl, time, (used, rw saved found'))

-- A refresh that succeeds had a live refresh token of the node, and issued a new pair.
pub refresh_node_token-issued :
    (uuid_text : Uuid → String) (draw : Draw) (request : NodeRefreshRequest)
    (response : NodeRefreshResponse) (hub after : HubState)
    → refresh_node_token uuid_text draw request hub ≡ (ok response, after)
    → (lease : TokenLease) × (refresh_lease request.refresh_token hub.tokens ≡ some lease)
      × (lease.node_id ≡ request.node_id)
      × (let (issued, tokens) =
            issue_tokens uuid_text draw.access_id draw.refresh_id draw.issued_at token_ttl
              request.node_id hub.tokens in
          (after.tokens ≡ tokens)
          × (response.access_token ≡ issued.access_token)
          × (response.refresh_token ≡ issued.refresh_token))
unfolding refresh_node_token issue_node_tokens
refresh_node_token-issued uuid_text draw request response hub after done = ground arith

-- A token that is not live refreshes nothing.
refresh_node_token-dead :
    (uuid_text : Uuid → String) (draw : Draw) (request : NodeRefreshRequest) (hub : HubState)
    → refresh_lease request.refresh_token hub.tokens ≡ none
    → refresh_node_token uuid_text draw request hub
      ≡ (err (unauthorized "invalid refresh token"), hub)
unfolding refresh_node_token
refresh_node_token-dead uuid_text draw request hub dead = rw dead refl

-- From tokens that are the current ones of their nodes, a refresh uses up its token: where the new
-- refresh token is a different one, in the state after it a refresh with the old one is refused
-- and changes nothing, for whichever node it is brought, and the only access token of the node is
-- the new one.
pub refresh_node_token_once :
    (uuid_text : Uuid → String) (draw again : Draw) (request retry : NodeRefreshRequest)
    (response : NodeRefreshResponse) (hub after : HubState)
    → IsTokenState hub.tokens
    → response.refresh_token ≢ request.refresh_token
    → refresh_node_token uuid_text draw request hub ≡ (ok response, after)
    → retry.refresh_token ≡ request.refresh_token
    → (refresh_node_token uuid_text again retry after
        ≡ (err (unauthorized "invalid refresh token"), after))
      × ((t : String) (l : TokenLease)
          → access_lease t after.tokens ≡ some l
          → l.node_id ≡ request.node_id
          → t ≡ response.access_token)
refresh_node_token_once uuid_text draw again request retry response hub after h fresh done same =
    let (lease, old, own, (tokens, access, refresh)) =
      refresh_node_token-issued uuid_text draw request response hub after done in
    let (_, _, _, access_only, refresh_only) =
      issue_tokens-IsTokenState uuid_text draw.access_id draw.refresh_id draw.issued_at token_ttl
        request.node_id hub.tokens h in
    (
      refresh_node_token-dead uuid_text again retry after
          (elim (Option-cases (refresh_lease retry.refresh_token after.tokens)) [
            | inl e ↦ e
            | inr (l, e) ↦
                let found = refresh_only request.refresh_token l (rw (tokens, same) at e) in
                ground arith
          ]),
      λ t l e own'. let found = access_only t l (rw tokens at e) in ground arith,
    )
