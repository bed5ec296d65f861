-- ===== src/Tests/Bindings.antt =====
-- The hub on the bindings of a site.
use pingora_mesh.Base.{
  ◌≤◌, ◌≡◌, refl, String, true, false, some, List, [], ◌∷◌, ◌&&◌, ok, count_if, All, IsSortedBy,
  ◌==◌, nat_eq, contains, sort_by, insert_by,
}
use pingora_mesh.Base.Int.{pos}
use pingora_mesh.Base.Text.{trim, to_ascii_lowercase}
use pingora_mesh.Domain.{Uuid}
use pingora_mesh.Hub.Records.{SiteBindingRecord}
use pingora_mesh.Hub.Service.Bindings.{
  SiteBindingItem, is_node, is_primary, le_priority, normalize_binding_role, collect_bindings,
  normalize_site_bindings, switched_site_bindings,
}
use pingora_mesh.Hub.Service.Bindings.Laws.{
  IsRole, normalize_site_bindings-ok, switched_site_bindings-nodes,
}

abbrev text : Uuid → String
text id = "node"

abbrev items : List SiteBindingItem
items =
    (record { node_id = 2; binding_role = "standby"; priority = pos 20 })
    ∷ (record { node_id = 1; binding_role = "Primary "; priority = pos 10 })
    ∷ []

abbrev bindings : List SiteBindingRecord
bindings =
    (record { node_id = 1; binding_role = "primary"; priority = pos 10 })
    ∷ (record { node_id = 2; binding_role = "standby"; priority = pos 20 })
    ∷ []

items_bindings : normalize_site_bindings text items ≡ ok bindings
unfolding normalize_site_bindings collect_bindings normalize_binding_role contains sort_by insert_by
    trim to_ascii_lowercase
items_bindings = refl

normalize_site_bindings-ok_example :
    (count_if is_primary bindings ≡ 1)
    × ((n : Uuid) → count_if (is_node n) bindings ≤ 1)
    × ((n : Uuid)
        → count_if (is_node n) bindings ≡ count_if (λ (i : SiteBindingItem). i.node_id == n) items)
    × All IsRole bindings
    × IsSortedBy le_priority bindings
normalize_site_bindings-ok_example = normalize_site_bindings-ok text items bindings items_bindings

switched_site_bindings-nodes_example :
    let after = switched_site_bindings true 2 (some 1) bindings in
    (count_if is_primary after ≡ 1)
    × (count_if (λ b. is_primary b && is_node 2 b) after ≡ 1)
    × (count_if (is_node 2) after ≡ 1)
    × (count_if (is_node 1) after ≡ 1)
    × ((n : Uuid)
        → (n == 2) ≡ false
        → (n == 1) ≡ false
        → count_if (is_node n) after ≡ count_if (is_node n) bindings)
switched_site_bindings-nodes_example = switched_site_bindings-nodes true 2 1 bindings refl
