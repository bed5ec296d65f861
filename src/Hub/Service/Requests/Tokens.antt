-- ===== src/Hub/Service/Requests/Tokens.antt =====
-- A registration and a refresh keep the service's invariant.
use pingora_mesh.Base.{◌≡◌, String, ok, err, arith, inl, inr, Result-cases, nat_eq, ap}
use pingora_mesh.Domain.{Uuid}
use pingora_mesh.Hub.Records.{NodeRecord}
use pingora_mesh.Hub.Memory.Nodes.{save_node}
use pingora_mesh.Hub.Tokens.Laws.{IsTokenState, issue_tokens-IsTokenState}
use pingora_mesh.Hub.Service.{AppError, HubState}
use pingora_mesh.Hub.Service.Tokens.{
  Draw, NodeRegisterRequest, NodeRefreshRequest, register_node, refresh_node_token,
  issue_node_tokens, registered, token_ttl,
}
use pingora_mesh.Hub.Service.Tokens.Laws.{
  register_node-saved, register_node-issued, refresh_node_token-issued,
}
use pingora_mesh.Hub.Service.Requests.Keyed.{IsHub, save_node-AreKeyed}

module _ (uuid_text : Uuid → String) (sha256_hex : String → String) (hub : HubState)
    (h : IsHub hub) where
  register_node-refused :
      (draw : Draw) (request : NodeRegisterRequest) (e : AppError)
      → (register_node uuid_text sha256_hex draw request hub).0 ≡ err e
      → (register_node uuid_text sha256_hex draw request hub).1 ≡ hub
  unfolding register_node issue_node_tokens
  register_node-refused draw request e refused = ground arith

  save_node-IsHub :
      (node : NodeRecord) (after : HubState)
      → IsTokenState after.tokens
      → after.repo ≡ save_node node hub.repo
      → IsHub after
  unfolding save_node
  save_node-IsHub node after tokens saved = record {
    tokens = tokens;
    nodes = rw saved (save_node-AreKeyed node hub.repo h.nodes);
    releases = rw saved h.releases;
  }

  pub register_node-IsHub :
      (draw : Draw) (request : NodeRegisterRequest)
      → IsHub (register_node uuid_text sha256_hex draw request hub).1
  register_node-IsHub draw request =
      elim (Result-cases (register_node uuid_text sha256_hex draw request hub).0) [
        | inl (e, refused) ↦ rw (register_node-refused draw request e refused) h
        | inr (response, done) ↦
            let after = (register_node uuid_text sha256_hex draw request hub).1 in
            let result : register_node uuid_text sha256_hex draw request hub
                ≡ (ok response, after) =
              ap (λ r. (r, after)) done in
            let (node, _, _, saved) =
              register_node-saved uuid_text sha256_hex draw request response hub after result in
            let (tokens, _) =
              register_node-issued uuid_text sha256_hex draw request response hub after result in
            save_node-IsHub (registered draw.now request node) after
              (rw tokens
                (issue_tokens-IsTokenState uuid_text draw.access_id draw.refresh_id draw.issued_at
                  token_ttl response.node_id hub.tokens h.tokens).0)
              saved
      ]

module _ (uuid_text : Uuid → String) (hub : HubState) (h : IsHub hub) where
  refresh_node_token-refused :
      (draw : Draw) (request : NodeRefreshRequest) (e : AppError)
      → (refresh_node_token uuid_text draw request hub).0 ≡ err e
      → (refresh_node_token uuid_text draw request hub).1 ≡ hub
  unfolding refresh_node_token issue_node_tokens
  refresh_node_token-refused draw request e refused = ground arith

  refresh_node_token-repo :
      (draw : Draw) (request : NodeRefreshRequest)
      → (refresh_node_token uuid_text draw request hub).1.repo ≡ hub.repo
  unfolding refresh_node_token issue_node_tokens
  refresh_node_token-repo draw request = ground arith

  pub refresh_node_token-IsHub :
      (draw : Draw) (request : NodeRefreshRequest)
      → IsHub (refresh_node_token uuid_text draw request hub).1
  refresh_node_token-IsHub draw request =
      elim (Result-cases (refresh_node_token uuid_text draw request hub).0) [
        | inl (e, refused) ↦ rw (refresh_node_token-refused draw request e refused) h
        | inr (response, done) ↦
            let after = (refresh_node_token uuid_text draw request hub).1 in
            let (_, _, _, (tokens, _, _)) =
              refresh_node_token-issued uuid_text draw request response hub after
                (ap (λ r. (r, after)) done) in
            record {
              tokens =
                  rw tokens
                    (issue_tokens-IsTokenState uuid_text draw.access_id draw.refresh_id
                      draw.issued_at token_ttl request.node_id hub.tokens h.tokens).0;
              nodes = rw (refresh_node_token-repo draw request) h.nodes;
              releases = rw (refresh_node_token-repo draw request) h.releases;
            }
      ]
