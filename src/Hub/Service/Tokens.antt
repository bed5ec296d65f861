-- ===== src/Hub/Service/Tokens.antt =====
-- The requests of service.rs that exchange a secret for tokens, and the check that every request of
-- a node passes. Sha-256 and the text of a `Uuid` are parameters.
pub mod Laws
use pingora_mesh.Base.{
  ◌*◌, String, Bool, not, Option, none, some, ◌==◌, nat_eq, string_eq, ltb, Result, ok, err, ok_or,
  ◌>>=◌, ◌>>◌, pure, lift, gets, ensure,
}
use pingora_mesh.Domain.{Uuid, DateTime, online}
use pingora_mesh.Hub.Records.{NodeRecord}
use pingora_mesh.Hub.Memory.Nodes.{find_node, node_id_by_code, save_node}
use pingora_mesh.Hub.Tokens.{IssuedTokens, TokenLease, issue_tokens, access_lease, refresh_lease}
use pingora_mesh.Hub.Service.{AppError, HubState, Handler, write}
use pingora_mesh.Hub.Service.AppError.{not_found, unauthorized}

-- What a request draws: two token ids, and the clock at each reading.
pub record Draw : Type 0 where
  pub access_id : Uuid
  pub refresh_id : Uuid
  pub issued_at : DateTime
  pub now : DateTime

-- `Duration::hours(24)`
abbrev pub token_ttl : DateTime
token_ttl = 24 * 3600 * 1000000000

pub record NodeRegisterRequest : Type 0 where
  pub node_code : String
  pub bootstrap_token : String
  pub hostname : String
  pub public_ip : Option String
  pub private_ip : Option String
  pub agent_version : String

pub record NodeRegisterResponse : Type 0 where
  pub node_id : Uuid
  pub access_token : String
  pub refresh_token : String
  pub expires_at : DateTime

pub record NodeRefreshRequest : Type 0 where
  pub node_id : Uuid
  pub refresh_token : String

pub record NodeRefreshResponse : Type 0 where
  pub node_id : Uuid
  pub access_token : String
  pub refresh_token : String
  pub expires_at : DateTime

-- The registered node: the bootstrap token is used up.
abbrev pub registered : DateTime → NodeRegisterRequest → NodeRecord → NodeRecord
registered now request node = record node {
  identity = record node.identity { status = online };
  hostname = some request.hostname;
  public_ip = request.public_ip;
  private_ip = request.private_ip;
  agent_version = some request.agent_version;
  bootstrap_token = none;
  runtime = record node.runtime { last_seen_at = some now };
}

module _ (uuid_text : Uuid → String) where
  unfoldable pub issue_node_tokens : Draw → Uuid → Handler IssuedTokens
  issue_node_tokens draw node_id hub =
      let (issued, tokens) =
        issue_tokens uuid_text draw.access_id draw.refresh_id draw.issued_at token_ttl node_id
          hub.tokens in
      (ok issued, record hub { tokens = tokens })

  unfoldable pub refresh_node_token : Draw → NodeRefreshRequest → Handler NodeRefreshResponse
  refresh_node_token draw request = do
    found ← gets (λ hub. refresh_lease request.refresh_token hub.tokens)
    lease ← lift (ok_or found (unauthorized "invalid refresh token"))
    ensure (lease.node_id == request.node_id) (unauthorized "refresh token does not match node")
    issued ← issue_node_tokens draw request.node_id
    pure (record {
      node_id = request.node_id;
      access_token = issued.access_token;
      refresh_token = issued.refresh_token;
      expires_at = issued.expires_at;
    })

  module _ (sha256_hex : String → String) where
    unfoldable pub register_node : Draw → NodeRegisterRequest → Handler NodeRegisterResponse
    register_node draw request = do
      known ← gets (λ hub. node_id_by_code request.node_code hub.repo)
      node_id ← lift (ok_or known (not_found "node_code not found"))
      found ← gets (λ hub. find_node node_id hub.repo)
      node ← lift (ok_or found (not_found "node not found"))
      expected ←
          lift (
            ok_or node.bootstrap_token (unauthorized "bootstrap token already used or unavailable"))
      ensure (expected == sha256_hex request.bootstrap_token)
          (unauthorized "invalid bootstrap token")
      issued ← issue_node_tokens draw node_id
      write (save_node (registered draw.now request node))
      pure (record {
        node_id = node_id;
        access_token = issued.access_token;
        refresh_token = issued.refresh_token;
        expires_at = issued.expires_at;
      })

unfoldable pub authorize_node : DateTime → Uuid → String → Handler (Unit {0})
authorize_node now node_id access_token = do
  found ← gets (λ hub. access_lease access_token hub.tokens)
  lease ← lift (ok_or found (unauthorized "invalid access token"))
  ensure (lease.node_id == node_id) (unauthorized "access token does not match node")
  ensure (not (ltb lease.expires_at now)) (unauthorized "access token expired")
  node ← gets (λ hub. find_node node_id hub.repo)
  lift (ok_or node (not_found "node not found"))
  pure tt
