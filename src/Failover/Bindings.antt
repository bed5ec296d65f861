-- ===== src/Failover/Bindings.antt =====
-- The bindings of a site in the failover worker: who is primary, how a switch rewrites them, and
-- which standby the policy names next. The text of a `Uuid` is a parameter.
pub mod Nodes
pub mod Switched
pub mod Standby
use pingora_mesh.Base.{
  ℕ, String, Bool, not, ◌&&◌, Option, none, some, List, [], ◌∷◌, ◌++◌, ◌==◌, nat_eq, string_eq,
  keep_if, find, sort_by, min_by, if◌then◌else◌, Ordering,
}
use pingora_mesh.Base.Int.{ℤ, pos, cmp_ℤ, add_i32, max_ℤ}
use pingora_mesh.Base.Order.{then_with, le_of, cmp_str, compare}
use pingora_mesh.Base.Text.{eq_ignore_ascii_case}
use pingora_mesh.Json.{unwrap_or}
use pingora_mesh.Domain.{Uuid}
use pingora_mesh.Failover.Snapshot.{SiteBindingSnapshot}

abbrev pub is_node : Uuid → SiteBindingSnapshot → Bool
is_node id b = b.node_id == id

abbrev pub is_primary : SiteBindingSnapshot → Bool
is_primary b = b.binding_role == "primary"

abbrev pub is_standby : SiteBindingSnapshot → Bool
is_standby b = b.binding_role == "standby"

abbrev pub priority_of : Option SiteBindingSnapshot → Option ℤ
priority_of none = none
priority_of (some b) = some b.priority

abbrev pub node_of : Option SiteBindingSnapshot → Option Uuid
node_of none = none
node_of (some b) = some b.node_id

-- `Option::or_else`
abbrev pub or_else {ℓ} : {A : Type ℓ} → Option A → Option A → Option A
or_else none o = o
or_else (some a) o = some a

abbrev pub cmp_priority : SiteBindingSnapshot → SiteBindingSnapshot → Ordering
cmp_priority left right = cmp_ℤ left.priority right.priority

abbrev pub cmp_node_code : SiteBindingSnapshot → SiteBindingSnapshot → Ordering
cmp_node_code left right = cmp_str left.node_code right.node_code

unfoldable pub current_primary_node_id : List SiteBindingSnapshot → Option Uuid
current_primary_node_id bindings =
    node_of (min_by (le_of cmp_priority) (keep_if is_primary bindings))

-- The priority that the new primary takes over.
unfoldable pub current_primary_priority : List SiteBindingSnapshot → Uuid → ℤ
current_primary_priority existing primary_node_id =
    unwrap_or
      (or_else (priority_of (find (λ b. is_node primary_node_id b && is_primary b) existing))
        (priority_of (min_by (le_of cmp_priority) (keep_if is_primary existing))))
      (pos 10)

-- The order of the list that a switch saves.
abbrev pub cmp_switched : SiteBindingSnapshot → SiteBindingSnapshot → Ordering
cmp_switched left right = then_with (cmp_priority left right) (cmp_node_code left right)

-- A binding of a node that the switch does not move.
abbrev pub is_other : Uuid → Uuid → SiteBindingSnapshot → Bool
is_other primary_node_id standby_node_id b =
    not (is_node primary_node_id b) && not (is_node standby_node_id b)

abbrev pub standby_previous_priority : List SiteBindingSnapshot → Uuid → Uuid → ℤ
standby_previous_priority existing primary_node_id standby_node_id =
    unwrap_or (priority_of (find (is_node standby_node_id) existing))
      (add_i32 (current_primary_priority existing primary_node_id) (pos 10))

module _ (uuid_text : Uuid → String) where
  -- The entry of the standby node before the switch, made up where the site has none.
  unfoldable pub standby_entry : List SiteBindingSnapshot → Uuid → ℤ → SiteBindingSnapshot
  standby_entry existing standby_node_id priority =
      unwrap_or (find (is_node standby_node_id) existing) (record {
        node_id = standby_node_id;
        node_code = uuid_text standby_node_id;
        node_status = "online";
        binding_role = "standby";
        priority = priority;
      })

  unfoldable pub primary_entry : List SiteBindingSnapshot → Uuid → ℤ → SiteBindingSnapshot
  primary_entry existing primary_node_id priority =
      unwrap_or (find (is_node primary_node_id) existing) (record {
        node_id = primary_node_id;
        node_code = uuid_text primary_node_id;
        node_status = "offline";
        binding_role = "primary";
        priority = priority;
      })

  -- The standby node takes over the role and the priority of the primary.
  unfoldable pub promoted_standby : List SiteBindingSnapshot → Uuid → Uuid → SiteBindingSnapshot
  promoted_standby existing primary_node_id standby_node_id =
      let previous = standby_previous_priority existing primary_node_id standby_node_id in
      let standby_node = standby_entry existing standby_node_id previous in
      record standby_node {
        binding_role = "primary";
        priority = current_primary_priority existing primary_node_id;
      }

  -- The old primary becomes a standby, behind the new primary.
  unfoldable pub demoted_primary : List SiteBindingSnapshot → Uuid → Uuid → SiteBindingSnapshot
  demoted_primary existing primary_node_id standby_node_id =
      let current = current_primary_priority existing primary_node_id in
      let previous = standby_previous_priority existing primary_node_id standby_node_id in
      let old_primary = primary_entry existing primary_node_id current in
      record old_primary {
        binding_role = "standby";
        priority = max_ℤ previous (add_i32 current (pos 10));
      }

  unfoldable pub unsorted_bindings :
      List SiteBindingSnapshot → Uuid → Uuid → List SiteBindingSnapshot
  unsorted_bindings existing primary_node_id standby_node_id =
      keep_if (is_other primary_node_id standby_node_id) existing
      ++ promoted_standby existing primary_node_id standby_node_id
        ∷ demoted_primary existing primary_node_id standby_node_id
        ∷ []

  unfoldable pub build_switched_bindings :
      List SiteBindingSnapshot → Uuid → Uuid → List SiteBindingSnapshot
  build_switched_bindings existing primary_node_id standby_node_id =
      sort_by (le_of cmp_switched) (unsorted_bindings existing primary_node_id standby_node_id)

unfoldable pub standby_status_rank : String → ℕ
standby_status_rank status = if eq_ignore_ascii_case status "online" then 0 else 1

-- Online nodes first, then the lower priority, then the node code.
abbrev pub cmp_candidate : SiteBindingSnapshot → SiteBindingSnapshot → Ordering
cmp_candidate left right =
    then_with
      (then_with
        (compare (standby_status_rank left.node_status) (standby_status_rank right.node_status))
        (cmp_priority left right))
      (cmp_node_code left right)

unfoldable pub select_next_policy_standby : List SiteBindingSnapshot → Uuid → Option Uuid
select_next_policy_standby bindings primary_node_id = node_of (
    min_by (le_of cmp_candidate)
      (keep_if (λ b. not (is_node primary_node_id b) && is_standby b) bindings))
