-- ===== src/Failover/Bindings/Standby.antt =====
-- The standby that a policy names next.
use pingora_mesh.Base.{
  ◌≤◌, ◌≡◌, ◌≢◌, refl, Bool, true, not, ◌&&◌, none, some, List, arith, nat_eq, string_eq, count_if,
  keep_if, keep_if-nonempty, min_by, min_by-none, min_by-below, min_by-mem, mem-keep_if,
  keep_if-mem, All-mem, IsPreorder, ◌∙◌, Memᴰ, Option-cases, inl, inr, String, some_inj, Bool-cases,
  false, ◌⊎◌, sym,
}
use pingora_mesh.Base.Order.{
  le_of, IsCmp-IsPreorder, IsCmp-then_with, IsCmp-key, IsCmp-cmp_ℤ, IsCmp-cmp_str, IsCmp-compare,
}
use pingora_mesh.Base.Text.{eq_ignore_ascii_case}
use pingora_mesh.Domain.{Uuid}
use pingora_mesh.Failover.Snapshot.{SiteBindingSnapshot}
use pingora_mesh.Failover.Bindings.{
  is_node, is_standby, cmp_priority, cmp_candidate, cmp_node_code, standby_status_rank,
  demoted_primary, build_switched_bindings, select_next_policy_standby,
}
use pingora_mesh.Failover.Bindings.Switched.{Precedes, cmp_switched-Precedes}
use pingora_mesh.Failover.Bindings.Nodes.{node-demoted_primary, count_if-build_switched_bindings}

abbrev pub is_candidate : Uuid → SiteBindingSnapshot → Bool
is_candidate primary b = not (is_node primary b) && is_standby b

abbrev pub is_online : SiteBindingSnapshot → Bool
is_online b = eq_ignore_ascii_case b.node_status "online"

-- A candidate is taken before another: it is online and the other is not, or both are or are not
-- and it comes before it by the priority and then the node code.
abbrev pub IsBefore : SiteBindingSnapshot → SiteBindingSnapshot → Type 0
IsBefore a b =
    ((is_online a ≡ true) × (is_online b ≡ false)) ⊎ ((is_online a ≡ is_online b) × Precedes a b)

cmp_candidate-IsBefore : (a b : SiteBindingSnapshot) → le_of cmp_candidate a b ≡ true → IsBefore a b
unfolding standby_status_rank
cmp_candidate-IsBefore a b h = elim (Bool-cases (is_online a)) [
  | inl up ↦ elim (Bool-cases (is_online b)) [
    | inl up' ↦ inr (up ∙ sym up', cmp_switched-Precedes a b (rw (up, up') at h))
    | inr down' ↦ inl (up, down')
  ]
  | inr down ↦ elim (Bool-cases (is_online b)) [
    | inl up' ↦ absurd (cc (rw (down, up') at h))
    | inr down' ↦ inr (down ∙ sym down', cmp_switched-Precedes a b (rw (down, down') at h))
  ]
]

-- The binding that a selection rests on: a standby of another node, before every other candidate.
pub record Chosen (bindings : List SiteBindingSnapshot) (primary id : Uuid) : Type 0 where
  pub binding : SiteBindingSnapshot
  pub member : Memᴰ binding bindings
  pub node : binding.node_id ≡ id
  pub candidate : is_candidate primary binding ≡ true
  pub best :
      (b : SiteBindingSnapshot)
      → Memᴰ b bindings
      → is_candidate primary b ≡ true
      → IsBefore binding b

candidate_order : IsPreorder (le_of cmp_candidate)
candidate_order = IsCmp-IsPreorder cmp_candidate (
    IsCmp-then_with _ cmp_node_code
      (IsCmp-then_with _ cmp_priority
        (IsCmp-key (λ (b : SiteBindingSnapshot). standby_status_rank b.node_status) _ IsCmp-compare)
        (IsCmp-key (λ (b : SiteBindingSnapshot). b.priority) _ IsCmp-cmp_ℤ))
      (IsCmp-key (λ (b : SiteBindingSnapshot). b.node_code) _ IsCmp-cmp_str))

standby-demoted_primary :
    (uuid_text : Uuid → String) (existing : List SiteBindingSnapshot) (p s : Uuid)
    → is_standby (demoted_primary uuid_text existing p s) ≡ true
unfolding demoted_primary
standby-demoted_primary uuid_text existing p s = refl

module _ (bindings : List SiteBindingSnapshot) (primary : Uuid) where
  -- The node that is selected has a standby binding, is not the primary, and comes first among the
  -- candidates: online before not online, then by priority, then by node code.
  pub select_next_policy_standby-Chosen :
      (id : Uuid)
      → select_next_policy_standby bindings primary ≡ some id
      → Chosen bindings primary id
  unfolding select_next_policy_standby
  select_next_policy_standby-Chosen id h =
      elim (Option-cases (min_by (le_of cmp_candidate) candidates)) [
        | inl e ↦ absurd (cc e)
        | inr (b, e) ↦
            let (passes, member) =
              mem-keep_if (is_candidate primary) b bindings
                (min_by-mem (le_of cmp_candidate) candidates b e) in
            record {
              binding = b;
              member = member;
              node = some_inj (rw e at h);
              candidate = passes;
              best = λ c m k. cmp_candidate-IsBefore b c (
                  All-mem (λ d. le_of cmp_candidate b d ≡ true) c candidates
                    (min_by-below (le_of cmp_candidate) candidate_order candidates b e)
                    (keep_if-mem (is_candidate primary) c bindings m k));
            }
      ]
    where
      candidates : List SiteBindingSnapshot
      candidates = keep_if (is_candidate primary) bindings

  -- A candidate is selected whenever there is one.
  pub select_next_policy_standby-none :
      1 ≤ count_if (is_candidate primary) bindings
      → select_next_policy_standby bindings primary ≢ none
  unfolding select_next_policy_standby
  select_next_policy_standby-none h =
      elim (Option-cases (min_by (le_of cmp_candidate) (keep_if (is_candidate primary) bindings))) [
        | inl e ↦ absurd (
            keep_if-nonempty (is_candidate primary) bindings h
              (min_by-none (le_of cmp_candidate) _ e))
        | inr (b, e) ↦ rw e (λ k. cc k)
      ]

-- After a switch between two different nodes the policy always has a next standby, and the next
-- standby is never the new primary.
pub next_standby_after_switch :
    (uuid_text : Uuid → String) (existing : List SiteBindingSnapshot) (p s : Uuid)
    → p ≢ s
    → (id : Uuid) × (select_next_policy_standby (build_switched_bindings uuid_text existing p s) s
        ≡ some id)
      × (id ≢ s)
next_standby_after_switch uuid_text existing p s ne =
    elim (Option-cases (select_next_policy_standby switched s)) [
      | inl e ↦ absurd (select_next_policy_standby-none switched s there e)
      | inr (id, e) ↦
          let c = select_next_policy_standby-Chosen switched s id e in
          (id, e, λ same. differs c.binding c.candidate (c.node ∙ same))
    ]
  where
    switched : List SiteBindingSnapshot
    switched = build_switched_bindings uuid_text existing p s

    differs : (b : SiteBindingSnapshot) → is_candidate s b ≡ true → b.node_id ≡ s → ⊥
    differs b h e = ground arith

    there : 1 ≤ count_if (is_candidate s) switched
    there = ground (
      arith,
      count_if-build_switched_bindings uuid_text existing p s (is_candidate s),
      node-demoted_primary uuid_text existing p s,
      standby-demoted_primary uuid_text existing p s,
    )
