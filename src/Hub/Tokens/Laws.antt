-- ===== src/Hub/Tokens/Laws.antt =====
-- What the token store promises: a lease is found under no token but its node's current one.
use pingora_mesh.Base.{
  ◌+◌, ◌≡◌, ◌≢◌, ◌⊎◌, String, none, some, refl, inl, inr, arith, nat_eq, string_eq, eq_iff,
  Option-cases,
}
use pingora_mesh.Base.Map
use pingora_mesh.Base.Map.{Map, get-insert, get-remove}
use pingora_mesh.Domain.{Uuid, DateTime}
use pingora_mesh.Hub.Tokens.{
  TokenLease, MemoryTokenState, drop_access, drop_refresh, revoke_tokens, issue_tokens,
  access_lease, refresh_lease, access_token_of, refresh_token_of,
}

-- The leases and the current tokens of one kind.
pub record Current (leases : Map String TokenLease) (current : Map Uuid String) : Type 0 where
  pub owned :
      (t : String) (l : TokenLease) → Map.get t leases ≡ some l → Map.get l.node_id current ≡ some t

-- No lease of the node is left.
abbrev pub NoLease : Uuid → Map String TokenLease → Type 0
NoLease n leases = (t : String) (l : TokenLease) → Map.get t leases ≡ some l → ¬ (l.node_id ≡ n)

none-NoLease :
    (n : Uuid) (leases : Map String TokenLease) (current : Map Uuid String)
    → Current leases current
    → Map.get n current ≡ none
    → NoLease n leases
none-NoLease n leases current h e t l found same = ground (arith, h.owned t l found)

remove-NoLease :
    (n : Uuid) (p : String) (leases : Map String TokenLease) (current : Map Uuid String)
    → Current leases current
    → Map.get n current ≡ some p
    → NoLease n (Map.remove p leases)
remove-NoLease n p leases current h e t l found same =
    ground (arith, h.owned t l, get-remove p t leases, eq_iff p t)

remove-Current :
    (n : Uuid) (p : String) (leases : Map String TokenLease) (current : Map Uuid String)
    → Current leases current
    → Map.get n current ≡ some p
    → Current (Map.remove p leases) (Map.remove n current)
remove-Current n p leases current h e = record {
  owned = λ t l found.
      ground
        (arith, h.owned t l, get-remove p t leases, eq_iff p t, get-remove n l.node_id current);
}

insert-Current :
    (n : Uuid) (t : String) (expires_at : DateTime) (leases : Map String TokenLease)
    (current : Map Uuid String)
    → Current leases current
    → NoLease n leases
    → Current
        (Map.insert t (record { node_id = n; expires_at = expires_at }) leases)
        (Map.insert n t current)
insert-Current n t expires_at leases current h free = record {
  owned = λ j l found. ground (
    arith,
    h.owned j l,
    free j l,
    get-insert t j (record { node_id = n; expires_at = expires_at }) leases,
    eq_iff t j,
    get-insert n l.node_id t current,
  );
}

-- Both kinds of tokens are kept this way.
pub record IsTokenState (state : MemoryTokenState) : Type 0 where
  pub access : Current state.access state.current_access_by_node
  pub refresh : Current state.refresh state.current_refresh_by_node

drop_access-refresh :
    (n : Uuid) (state : MemoryTokenState)
    → ((drop_access n state).refresh ≡ state.refresh)
      × ((drop_access n state).current_refresh_by_node ≡ state.current_refresh_by_node)
drop_access-refresh n state = elim (Option-cases (Map.get n state.current_access_by_node)) [
  | inl e ↦ rw (e, drop_access) (refl, refl)
  | inr (p, e) ↦ rw (e, drop_access) (refl, refl)
]

drop_refresh-access :
    (n : Uuid) (state : MemoryTokenState)
    → ((drop_refresh n state).access ≡ state.access)
      × ((drop_refresh n state).current_access_by_node ≡ state.current_access_by_node)
drop_refresh-access n state = elim (Option-cases (Map.get n state.current_refresh_by_node)) [
  | inl e ↦ rw (e, drop_refresh) (refl, refl)
  | inr (p, e) ↦ rw (e, drop_refresh) (refl, refl)
]

-- A kind of tokens after the node's own is dropped.
abbrev pub Dropped : Uuid → Map String TokenLease → Map Uuid String → Type 0
Dropped n leases current = Current leases current × NoLease n leases

drop_access-Dropped :
    (n : Uuid) (state : MemoryTokenState)
    → Current state.access state.current_access_by_node
    → Dropped n (drop_access n state).access (drop_access n state).current_access_by_node
drop_access-Dropped n state h = elim (Option-cases (Map.get n state.current_access_by_node)) [
  | inl e ↦ rw (e, drop_access) (h, none-NoLease n state.access state.current_access_by_node h e)
  | inr (p, e) ↦
      rw (e, drop_access)
        (
          remove-Current n p state.access state.current_access_by_node h e,
          remove-NoLease n p state.access state.current_access_by_node h e,
        )
]

drop_refresh-Dropped :
    (n : Uuid) (state : MemoryTokenState)
    → Current state.refresh state.current_refresh_by_node
    → Dropped n (drop_refresh n state).refresh (drop_refresh n state).current_refresh_by_node
drop_refresh-Dropped n state h = elim (Option-cases (Map.get n state.current_refresh_by_node)) [
  | inl e ↦ rw (e, drop_refresh) (h, none-NoLease n state.refresh state.current_refresh_by_node h e)
  | inr (p, e) ↦
      rw (e, drop_refresh)
        (
          remove-Current n p state.refresh state.current_refresh_by_node h e,
          remove-NoLease n p state.refresh state.current_refresh_by_node h e,
        )
]

both-Dropped :
    (n : Uuid) (state : MemoryTokenState)
    → IsTokenState state
    → let dropped = drop_refresh n (drop_access n state) in
      Dropped n dropped.access dropped.current_access_by_node
      × Dropped n dropped.refresh dropped.current_refresh_by_node
both-Dropped n state h =
    let (access, current) = drop_refresh-access n (drop_access n state) in
    let (refresh, current') = drop_access-refresh n state in
    (
      rw (access, current) (drop_access-Dropped n state h.access),
      drop_refresh-Dropped n (drop_access n state) (rw (refresh, current') h.refresh),
    )

-- From tokens that are the current ones of their nodes, after a revocation the node has no token
-- of either kind, and every token that is left is still the current one of its node.
pub revoke_tokens-IsTokenState :
    (n : Uuid) (state : MemoryTokenState)
    → IsTokenState state
    → IsTokenState (revoke_tokens n state)
      × NoLease n (revoke_tokens n state).access
      × NoLease n (revoke_tokens n state).refresh
unfolding revoke_tokens
revoke_tokens-IsTokenState n state h =
    let ((a, no_access), (r, no_refresh)) = both-Dropped n state h in
    (record { access = a; refresh = r }, no_access, no_refresh)

-- What is left after the drop was there before.
drop_access-sub :
    (n : Uuid) (state : MemoryTokenState) (t : String) (l : TokenLease)
    → Map.get t (drop_access n state).access ≡ some l
    → Map.get t state.access ≡ some l
drop_access-sub n state t l found = elim (Option-cases (Map.get n state.current_access_by_node)) [
  | inl e ↦ rw (e, drop_access) at found
  | inr (p, e) ↦
      let left : Map.get t (Map.remove p state.access) ≡ some l = rw (e, drop_access) at found in
      ground (arith, get-remove p t state.access)
]

drop_refresh-sub :
    (n : Uuid) (state : MemoryTokenState) (t : String) (l : TokenLease)
    → Map.get t (drop_refresh n state).refresh ≡ some l
    → Map.get t state.refresh ≡ some l
drop_refresh-sub n state t l found = elim (Option-cases (Map.get n state.current_refresh_by_node)) [
  | inl e ↦ rw (e, drop_refresh) at found
  | inr (p, e) ↦
      let left : Map.get t (Map.remove p state.refresh) ≡ some l = rw (e, drop_refresh) at found in
      ground (arith, get-remove p t state.refresh)
]

module _ (uuid_text : Uuid → String) where
  -- From tokens that are the current ones of their nodes, a token pair that is issued replaces the
  -- node's pair: the two new tokens are leases of the node until `now + ttl`, any other token that
  -- is live was live before and belongs to another node, and every token is still the current one
  -- of its node.
  pub issue_tokens-IsTokenState :
      (access_id refresh_id : Uuid) (now ttl : DateTime) (n : Uuid) (state : MemoryTokenState)
      → IsTokenState state
      → let (issued, after) = issue_tokens uuid_text access_id refresh_id now ttl n state in
        let lease : TokenLease = record { node_id = n; expires_at = now + ttl } in
        IsTokenState after
        × (access_lease issued.access_token after ≡ some lease)
        × (refresh_lease issued.refresh_token after ≡ some lease)
        × ((t : String) (l : TokenLease)
            → access_lease t after ≡ some l
            → (t ≡ issued.access_token) ⊎ ((access_lease t state ≡ some l) × (l.node_id ≢ n)))
        × ((t : String) (l : TokenLease)
            → refresh_lease t after ≡ some l
            → (t ≡ issued.refresh_token) ⊎ ((refresh_lease t state ≡ some l) × (l.node_id ≢ n)))
  unfolding issue_tokens access_lease refresh_lease
  issue_tokens-IsTokenState access_id refresh_id now ttl n state h =
      let ((a, no_access), (r, no_refresh)) = both-Dropped n state h in
      let dropped = drop_refresh n (drop_access n state) in
      let at = access_token_of uuid_text access_id in
      let rt = refresh_token_of uuid_text refresh_id in
      let lease : TokenLease = record { node_id = n; expires_at = now + ttl } in
      (
        record {
          access =
              insert-Current n at (now + ttl) dropped.access dropped.current_access_by_node a
                no_access;
          refresh =
              insert-Current n rt (now + ttl) dropped.refresh dropped.current_refresh_by_node r
                no_refresh;
        },
        ground (arith, get-insert at at lease dropped.access, eq_iff at at),
        ground (arith, get-insert rt rt lease dropped.refresh, eq_iff rt rt),
        (λ t l found. ground (
          arith,
          get-insert at t lease dropped.access,
          eq_iff at t,
          no_access t l,
          drop_access-sub n state t l,
          drop_refresh-access n (drop_access n state),
        )),
        (λ t l found. ground (
          arith,
          get-insert rt t lease dropped.refresh,
          eq_iff rt t,
          no_refresh t l,
          drop_refresh-sub n (drop_access n state) t l,
          drop_access-refresh n state,
        )),
      )
