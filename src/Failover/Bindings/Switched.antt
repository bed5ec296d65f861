-- ===== src/Failover/Bindings/Switched.antt =====
-- The roles after a switch: the new primary is the standby node, and the worker's own reading of
-- the bindings agrees.
use pingora_mesh.Base.{
  ◌+◌, ◌≡◌, refl, true, false, not, ◌&&◌, some, List, arith, nat_eq, string_eq, count_if, keep_if,
  ◌≢◌, ◌⊎◌, Ordering, IsOrdered, IsSortedBy-IsOrdered, keep_if-nonempty, count_if-zero,
  count_if_mono, min_by, min_by-none, min_by-mem, mem-keep_if, All-mem, Option-cases, inl, inr,
  String, sort_by-IsSortedBy, ap,
}
use pingora_mesh.Base.Order.{
  cmp_str, le_of, IsCmp-IsPreorder, IsCmp-then_with, IsCmp-key, IsCmp-cmp_ℤ, IsCmp-cmp_str,
}
use pingora_mesh.Base.Int.{cmp_ℤ}
use pingora_mesh.Domain.{Uuid}
use pingora_mesh.Failover.Snapshot.{SiteBindingSnapshot}
use pingora_mesh.Failover.Bindings.{
  is_node, is_other, is_primary, cmp_priority, cmp_switched, promoted_standby, demoted_primary,
  unsorted_bindings, build_switched_bindings, current_primary_node_id,
}
use pingora_mesh.Failover.Bindings.Nodes.{node-promoted_standby, count_if-build_switched_bindings}

module _ (uuid_text : Uuid → String) (existing : List SiteBindingSnapshot) (p s : Uuid) where
  primary-promoted_standby : is_primary (promoted_standby uuid_text existing p s) ≡ true
  unfolding promoted_standby
  primary-promoted_standby = refl

  primary-demoted_primary : is_primary (demoted_primary uuid_text existing p s) ≡ false
  unfolding demoted_primary
  primary-demoted_primary = refl

  -- One node more than the untouched ones is primary.
  pub primaries-build_switched_bindings :
      count_if is_primary (build_switched_bindings uuid_text existing p s)
      ≡ count_if (λ b. is_other p s b && is_primary b) existing + 1
  primaries-build_switched_bindings = ground (
    arith,
    count_if-build_switched_bindings uuid_text existing p s is_primary,
    primary-promoted_standby,
    primary-demoted_primary,
  )

  -- Where no other node is primary, every primary binding after the switch is the standby node's.
  strays :
      count_if (λ b. is_other p s b && is_primary b) existing ≡ 0
      → count_if
          (λ b. is_primary b && not (is_node s b))
          (build_switched_bindings uuid_text existing p s)
        ≡ 0
  strays alone = ground (
    arith,
    count_if-build_switched_bindings uuid_text existing p s
        (λ b. is_primary b && not (is_node s b)),
    count_if_mono (λ b. is_other p s b && (is_primary b && not (is_node s b)))
        (λ b. is_other p s b && is_primary b) existing (λ b h. ground arith),
    node-promoted_standby uuid_text existing p s,
    primary-demoted_primary,
  )

-- If no node but the old primary and the standby was primary, then exactly one binding of the
-- switched site is primary, and the worker reads the standby node as the current primary.
pub current_primary-build_switched_bindings :
    (uuid_text : Uuid → String) (existing : List SiteBindingSnapshot) (p s : Uuid)
    → count_if (λ b. is_other p s b && is_primary b) existing ≡ 0
    → (count_if is_primary (build_switched_bindings uuid_text existing p s) ≡ 1)
      × (current_primary_node_id (build_switched_bindings uuid_text existing p s) ≡ some s)
unfolding current_primary_node_id
current_primary-build_switched_bindings uuid_text existing p s alone = (
  omega (arith, primaries-build_switched_bindings uuid_text existing p s),
  elim (Option-cases (min_by (le_of cmp_priority) (keep_if is_primary switched))) [
    | inl e ↦ absurd (
        keep_if-nonempty is_primary switched
          (omega (arith, primaries-build_switched_bindings uuid_text existing p s))
          (min_by-none (le_of cmp_priority) (keep_if is_primary switched) e))
    | inr (b, e) ↦ rw e (ap some (at b e))
  ],
)
  where
    switched : List SiteBindingSnapshot
    switched = build_switched_bindings uuid_text existing p s

    at :
        (b : SiteBindingSnapshot)
        → min_by (le_of cmp_priority) (keep_if is_primary switched) ≡ some b
        → b.node_id ≡ s
    at b e =
        let (role, member) =
          mem-keep_if is_primary b switched
            (min_by-mem (le_of cmp_priority) (keep_if is_primary switched) b e) in
        let no_stray =
          All-mem (λ c. (is_primary c && not (is_node s c)) ≡ false) b switched
            (count_if-zero (λ c. is_primary c && not (is_node s c)) switched
              (strays uuid_text existing p s alone))
            member in
        ground arith

-- A binding stands before another by its priority, or at the same priority by its node code.
abbrev pub Precedes : SiteBindingSnapshot → SiteBindingSnapshot → Type 0
Precedes a b =
    (cmp_ℤ a.priority b.priority ≡ Ordering.lt)
    ⊎ ((a.priority ≡ b.priority) × (cmp_str a.node_code b.node_code ≢ Ordering.gt))

pub cmp_switched-Precedes :
    (a b : SiteBindingSnapshot) → le_of cmp_switched a b ≡ true → Precedes a b
cmp_switched-Precedes a b h = ground arith

-- The switched bindings are saved in the order of their priorities: every earlier one has a lower
-- priority than every later one, or the same priority and a node code that is not greater.
pub sorted-build_switched_bindings :
    (uuid_text : Uuid → String) (existing : List SiteBindingSnapshot) (p s : Uuid)
    → IsOrdered Precedes (build_switched_bindings uuid_text existing p s)
unfolding build_switched_bindings
sorted-build_switched_bindings uuid_text existing p s =
    IsSortedBy-IsOrdered (le_of cmp_switched) Precedes
      (build_switched_bindings uuid_text existing p s) cmp_switched-Precedes
      (sort_by-IsSortedBy (le_of cmp_switched)
        (IsCmp-IsPreorder cmp_switched (
          IsCmp-then_with cmp_priority _
            (IsCmp-key (λ (b : SiteBindingSnapshot). b.priority) _ IsCmp-cmp_ℤ)
            (IsCmp-key (λ (b : SiteBindingSnapshot). b.node_code) _ IsCmp-cmp_str)))
        (unsorted_bindings uuid_text existing p s))
