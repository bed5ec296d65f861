-- ===== src/Hub/Service/Nodes/Laws.antt =====
-- What the deletion of a node leaves behind.
use pingora_mesh.Base.{
  ◌≡◌, ◌≢◌, ◌∙◌, refl, sym, String, Bool, true, false, none, some, List, [], ◌∷◌, map, any, keep_if,
  dedup, sort_by, insert_by, All, All-map, ok, arith, inl, inr, Bool-cases, nat_eq, string_eq,
  is_empty, nat_beq_iff, ◌==◌,
}
use pingora_mesh.Base.Order.{le_of, cmp_str}
use pingora_mesh.Base.Map
use pingora_mesh.Base.Map.{get-remove}
use pingora_mesh.Domain.{Uuid, DateTime}
use pingora_mesh.Hub.Records.{SiteRecord, SiteBindingRecord}
use pingora_mesh.Hub.Memory.{MemoryState}
use pingora_mesh.Hub.Memory.Nodes.{find_node, is_bound, node_delete_guard, delete_node}
use pingora_mesh.Hub.Tokens.{access_lease, refresh_lease, TokenLease, revoke_tokens}
use pingora_mesh.Hub.Tokens.Laws.{IsTokenState, revoke_tokens-IsTokenState}
use pingora_mesh.Hub.Service.{HubState}
use pingora_mesh.Hub.Service.Nodes.{DeleteNodeResponse, remove_node}
use pingora_mesh.Hub.Service.Tokens.{authorize_node}

-- A deletion that succeeds found the node, bound to no site, and made both of its writes.
remove_node-writes :
    (node_id : Uuid) (response : DeleteNodeResponse) (hub after : HubState)
    → remove_node node_id hub ≡ (ok response, after)
    → (is_empty (node_delete_guard node_id hub.repo).bound_site_codes ≡ true)
      × (after.repo ≡ delete_node node_id hub.repo)
      × (after.tokens ≡ revoke_tokens node_id hub.tokens)
unfolding remove_node
remove_node-writes node_id response hub after done = ground arith

delete_node-gone :
    (node_id : Uuid) (hub : HubState) → find_node node_id (delete_node node_id hub.repo) ≡ none
unfolding delete_node find_node
delete_node-gone node_id hub =
    ground (arith, get-remove node_id node_id hub.repo.nodes, nat_beq_iff node_id node_id)

is_empty-dedup : (xs : List String) → is_empty (dedup xs) ≡ is_empty xs
unfolding dedup
is_empty-dedup [] = refl
is_empty-dedup (x ∷ xs) = refl

is_empty-insert_by :
    (le : String → String → Bool) (x : String) (xs : List String)
    → is_empty (insert_by le x xs) ≡ false
unfolding insert_by
is_empty-insert_by le x [] = refl
is_empty-insert_by le x (y ∷ ys) = ground arith

is_empty-sort_by :
    (le : String → String → Bool) (xs : List String) → is_empty (sort_by le xs) ≡ is_empty xs
unfolding sort_by
is_empty-sort_by le [] = refl
is_empty-sort_by le (x ∷ xs) = is_empty-insert_by le x (sort_by le xs)

-- What a test keeps of a list is empty where no element passes it.
empty-keep_if :
    {A : Type 0} (f : A → String) (p : A → Bool) (xs : List A)
    → is_empty (map f (keep_if p xs)) ≡ true
    → All (λ x. p x ≡ false) xs
unfolding keep_if
empty-keep_if f p [] h = tt
empty-keep_if f p (x ∷ xs) h = elim (Bool-cases (p x)) [
  | inl e ↦ absurd (cc (rw e at h))
  | inr e ↦ (e, empty-keep_if f p xs (rw e at h))
]

-- A site with no binding of a node.
abbrev pub IsUnbound : Uuid → SiteRecord → Type 0
IsUnbound node_id site = All (λ (b : SiteBindingRecord). b.node_id ≢ node_id) site.bindings

any-IsUnbound :
    (node_id : Uuid) (bindings : List SiteBindingRecord)
    → any (λ (b : SiteBindingRecord). b.node_id == node_id) bindings ≡ false
    → All (λ (b : SiteBindingRecord). b.node_id ≢ node_id) bindings
unfolding any
any-IsUnbound node_id [] h = tt
any-IsUnbound node_id (b ∷ bs) h =
    (λ same. ground (arith, nat_beq_iff b.node_id node_id), any-IsUnbound node_id bs (ground arith))

-- A guard without sites says that no site binds the node.
node_delete_guard-IsUnbound :
    (node_id : Uuid) (repo : MemoryState)
    → is_empty (node_delete_guard node_id repo).bound_site_codes ≡ true
    → All (IsUnbound node_id) (Map.values repo.sites)
unfolding node_delete_guard
node_delete_guard-IsUnbound node_id repo h =
    let sites = Map.values repo.sites in
    let codes = map (λ (site : SiteRecord). site.site_code) (keep_if (is_bound node_id) sites) in
    All-map sites (λ site free. any-IsUnbound node_id site.bindings free)
      (empty-keep_if (λ (site : SiteRecord). site.site_code) (is_bound node_id) sites
        (sym (is_empty-sort_by (le_of cmp_str) codes)
          ∙ sym (is_empty-dedup (sort_by (le_of cmp_str) codes))
          ∙ h))

-- Whoever is let in has a node that is stored.
authorize_node-stored :
    (now : DateTime) (node_id : Uuid) (token : String) (hub : HubState)
    → find_node node_id hub.repo ≡ none
    → (authorize_node now node_id token hub).0 ≢ ok tt
unfolding authorize_node
authorize_node-stored now node_id token hub gone let_in = ground arith

-- From tokens that are the current ones of their nodes: where a node was deleted, no site had a
-- binding of it; afterwards it is not found, no access token and no refresh token is leased to it,
-- and every request in its name is refused, whatever token it brings.
pub remove_node-locked_out :
    (node_id : Uuid) (response : DeleteNodeResponse) (hub after : HubState)
    → IsTokenState hub.tokens
    → remove_node node_id hub ≡ (ok response, after)
    → All (IsUnbound node_id) (Map.values hub.repo.sites)
      × (find_node node_id after.repo ≡ none)
      × ((t : String) (l : TokenLease) → access_lease t after.tokens ≡ some l → l.node_id ≢ node_id)
      × ((t : String) (l : TokenLease)
          → refresh_lease t after.tokens ≡ some l
          → l.node_id ≢ node_id)
      × ((now : DateTime) (t : String) → (authorize_node now node_id t after).0 ≢ ok tt)
unfolding access_lease refresh_lease
remove_node-locked_out node_id response hub after h done =
    let (free, repo, tokens) = remove_node-writes node_id response hub after done in
    let (_, no_access, no_refresh) = revoke_tokens-IsTokenState node_id hub.tokens h in
    let gone : find_node node_id after.repo ≡ none = rw repo (delete_node-gone node_id hub) in
    (
      node_delete_guard-IsUnbound node_id hub.repo free,
      gone,
      rw tokens no_access,
      rw tokens no_refresh,
      λ now t. authorize_node-stored now node_id t after gone,
    )
