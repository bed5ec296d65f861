-- ===== src/Failover/Bindings/Nodes.antt =====
-- Which nodes the switched bindings of a site name.
use pingora_mesh.Base.{
  ◌+◌, ◌≡◌, ◌≢◌, Bool, ◌&&◌, List, [], ◌∷◌, arith, ◌==◌, nat_eq, count_if, count_if-append,
  count_if-keep_if, count_if-sort_by, find, find-passes, keep_if, Option-cases, if◌then◌else◌,
  nat_beq_iff, inl, inr, String,
}
use pingora_mesh.Base.Order.{le_of}
use pingora_mesh.Base.Int.{ℤ}
use pingora_mesh.Domain.{Uuid}
use pingora_mesh.Failover.Snapshot.{SiteBindingSnapshot}
use pingora_mesh.Failover.Bindings.{
  is_node, is_other, cmp_switched, promoted_standby, demoted_primary, standby_entry, primary_entry,
  unsorted_bindings, build_switched_bindings,
}

module _ (uuid_text : Uuid → String) (existing : List SiteBindingSnapshot) where
  pub node-standby_entry :
      (s : Uuid) (priority : ℤ) → (standby_entry uuid_text existing s priority).node_id ≡ s
  unfolding standby_entry
  node-standby_entry s priority = elim (Option-cases (find (is_node s) existing)) [
    | inl e ↦ rw e
    | inr (b, e) ↦ rw e ((nat_beq_iff b.node_id s).0 (find-passes (is_node s) existing b e))
  ]

  pub node-primary_entry :
      (p : Uuid) (priority : ℤ) → (primary_entry uuid_text existing p priority).node_id ≡ p
  unfolding primary_entry
  node-primary_entry p priority = elim (Option-cases (find (is_node p) existing)) [
    | inl e ↦ rw e
    | inr (b, e) ↦ rw e ((nat_beq_iff b.node_id p).0 (find-passes (is_node p) existing b e))
  ]

  module _ (p s : Uuid) where
    pub node-promoted_standby : (promoted_standby uuid_text existing p s).node_id ≡ s
    unfolding promoted_standby
    node-promoted_standby = node-standby_entry s _

    pub node-demoted_primary : (demoted_primary uuid_text existing p s).node_id ≡ p
    unfolding demoted_primary
    node-demoted_primary = node-primary_entry p _

    -- The switched list holds the other bindings unchanged and the two that are moved, and nothing
    -- else.
    pub count_if-build_switched_bindings :
        (q : SiteBindingSnapshot → Bool)
        → count_if q (build_switched_bindings uuid_text existing p s)
          ≡ count_if (λ b. is_other p s b && q b) existing
            + (if q (promoted_standby uuid_text existing p s) then 1 else 0)
            + (if q (demoted_primary uuid_text existing p s) then 1 else 0)
    unfolding build_switched_bindings unsorted_bindings
    count_if-build_switched_bindings q = omega (
      arith,
      count_if-sort_by (le_of cmp_switched) q (unsorted_bindings uuid_text existing p s),
      count_if-append q (keep_if (is_other p s) existing)
          (promoted_standby uuid_text existing p s ∷ demoted_primary uuid_text existing p s ∷ []),
      count_if-keep_if q (is_other p s) existing,
    )

  others-is_node :
      (p s id : Uuid) (bs : List SiteBindingSnapshot)
      → count_if (λ b. is_other p s b && is_node id b) bs
        ≡ (if p == id then 0 else if s == id then 0 else count_if (is_node id) bs)
  others-is_node p s id [] = ground arith
  others-is_node p s id (b ∷ bs) = ground (arith, others-is_node p s id bs)

  -- After a switch between two different nodes the old primary node and the new one are bound once
  -- each, and every other node as often as before.
  pub node-build_switched_bindings :
      (p s id : Uuid)
      → p ≢ s
      → count_if (is_node id) (build_switched_bindings uuid_text existing p s)
        ≡ (if p == id then 1 else if s == id then 1 else count_if (is_node id) existing)
  node-build_switched_bindings p s id ne = ground (
    arith,
    count_if-build_switched_bindings p s (is_node id),
    others-is_node p s id existing,
    node-promoted_standby p s,
    node-demoted_primary p s,
  )
