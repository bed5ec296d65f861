-- ===== src/Hub/Service/Bindings.antt =====
-- How service.rs writes the bindings of a site: the check of a new list, and the new list when the
-- primary is switched. The text of a `Uuid` is a parameter.
pub mod Laws
use pingora_mesh.Base.{
  ℕ, ◌+◌, String, Bool, true, false, not, ◌&&◌, ◌||◌, Option, none, some, List, [], ◌∷◌, ◌++◌, ◌==◌,
  nat_eq, string_eq, find, first, keep_if, sort_by, contains, is_empty, length, if◌then◌else◌,
  Result, ok, err, ok_or, ◌>>=◌, ◌>>◌, pure, lift, gets, ensure, nat_beq, min_by,
}
use pingora_mesh.Base.Int.{ℤ, pos, add_i32, cmp_ℤ}
use pingora_mesh.Base.Order.{le_of}
use pingora_mesh.Base.Text.{◌<>◌, trim, to_ascii_lowercase}
use pingora_mesh.Domain.{Uuid, draft}
use pingora_mesh.Hub.Records.{SiteBindingRecord, SiteRecord, NodeRecord}
use pingora_mesh.Hub.Memory.Nodes.{find_node}
use pingora_mesh.Hub.Memory.Sites.{find_site, save_site}
use pingora_mesh.Hub.Service.{AppError, HubState, Handler, write}
use pingora_mesh.Hub.Service.AppError.{bad_request, not_found, conflict}

pub record SiteBindingItem : Type 0 where
  pub node_id : Uuid
  pub binding_role : String
  pub priority : ℤ

abbrev pub is_node : Uuid → SiteBindingRecord → Bool
is_node id b = b.node_id == id

abbrev pub is_primary : SiteBindingRecord → Bool
is_primary b = b.binding_role == "primary"

abbrev pub is_standby : SiteBindingRecord → Bool
is_standby b = b.binding_role == "standby"

abbrev pub le_priority : SiteBindingRecord → SiteBindingRecord → Bool
le_priority = le_of (λ left right. cmp_ℤ left.priority right.priority)

unfoldable pub normalize_binding_role : String → Result AppError String
normalize_binding_role raw =
    let role = to_ascii_lowercase (trim raw) in
    if role == "primary"
    then ok "primary"
    else if role == "standby"
    then ok "standby"
    else err (bad_request "binding_role must be one of primary, standby")

abbrev pub normalized : SiteBindingItem → String → SiteBindingRecord
normalized item role = record {
  node_id = item.node_id;
  binding_role = role;
  priority = item.priority;
}

pub record CreateSiteBindingsResponse : Type 0 where
  pub site_id : Uuid
  pub binding_count : ℕ

module _ (uuid_text : Uuid → String) where
  -- The bindings and the number of primaries, from the nodes that the loop has seen.
  unfoldable pub collect_bindings :
      List SiteBindingItem → List Uuid → Result AppError (List SiteBindingRecord × ℕ)
  collect_bindings [] seen = ok ([], 0)
  collect_bindings (item ∷ items) seen =
      let rest = collect_bindings items (item.node_id ∷ seen) in
      if contains item.node_id seen
      then err (bad_request ("duplicate binding for node " <> uuid_text item.node_id))
      else elim (normalize_binding_role item.binding_role) [
        | err e ↦ err e
        | ok role ↦ elim rest [
          | err e ↦ err e
          | ok (bindings, primary_count) ↦ ok (
            normalized item role ∷ bindings,
            (if role == "primary" then 1 + primary_count else primary_count),
          )
        ]
      ]

  unfoldable pub normalize_site_bindings :
      List SiteBindingItem → Result AppError (List SiteBindingRecord)
  normalize_site_bindings raw =
      if is_empty raw
      then err (bad_request "at least one binding is required")
      else elim (collect_bindings raw []) [
        | err e ↦ err e
        | ok (bindings, primary_count) ↦
            if nat_beq primary_count 1
            then ok (sort_by le_priority bindings)
            else err (bad_request "exactly one primary binding is required")
      ]

  -- The first bound node that does not exist.
  unfoldable pub check_nodes : List SiteBindingRecord → Handler (Unit {0})
  check_nodes [] = pure tt
  check_nodes (b ∷ bs) = do
    found ← gets (λ hub. find_node b.node_id hub.repo)
    lift (ok_or found (not_found ("node " <> uuid_text b.node_id <> " not found")))
    check_nodes bs

  unfoldable pub bind_site_nodes : Uuid → List SiteBindingItem → Handler CreateSiteBindingsResponse
  bind_site_nodes site_id items = do
    bindings ← lift (normalize_site_bindings items)
    check_nodes bindings
    found ← gets (λ hub. find_site site_id hub.repo)
    site ← lift (ok_or found (not_found "site not found"))
    write (save_site (record site { bindings = bindings }))
    pure (record { site_id = site_id; binding_count = length bindings })

unfoldable pub select_next_failover_policy_standby : List SiteBindingRecord → Uuid → Option Uuid
select_next_failover_policy_standby bindings primary_node_id =
    elim (min_by le_priority
      (keep_if (λ b. not (is_node primary_node_id b) && is_standby b) bindings)) [
        | none ↦ none
        | some b ↦ some b.node_id
      ]

abbrev pub node_of : Option SiteBindingRecord → Option Uuid
node_of none = none
node_of (some b) = some b.node_id

abbrev pub or_else {ℓ} : {A : Type ℓ} → Option A → Option A → Option A
or_else none o = o
or_else (some a) o = some a

-- `current_primary_node_id` of a switch: the first binding stands in for a primary.
unfoldable pub switch_from : List SiteBindingRecord → Option Uuid
switch_from bindings = node_of (or_else (find is_primary bindings) (first bindings))

abbrev pub is_from : Option Uuid → SiteBindingRecord → Bool
is_from none b = false
is_from (some id) b = is_node id b

-- The target where the request names none.
unfoldable pub default_target : List SiteBindingRecord → Option Uuid → Option Uuid
default_target bindings current = node_of (
    or_else (find is_standby (keep_if (λ b. not (is_from current b)) bindings))
      (find (λ b. not (is_from current b)) bindings))

-- The loop over the bindings that the switch does not move.
unfoldable pub renumber : Uuid → Option Uuid → List SiteBindingRecord → ℤ → List SiteBindingRecord
renumber target previous [] next_priority = []
renumber target previous (b ∷ bs) next_priority =
    let moved = is_node target b || is_from previous b in
    let rest =
      renumber target previous bs
        (if moved then next_priority else add_i32 next_priority (pos 100)) in
    if moved
    then rest
    else (record {
      node_id = b.node_id;
      binding_role = (if is_primary b then "standby" else b.binding_role);
      priority = next_priority;
    })
      ∷ rest

-- The old primary as a standby, where it is kept and is not the target.
unfoldable pub kept_primary : Bool → Uuid → Option Uuid → List SiteBindingRecord
kept_primary false target previous = []
kept_primary true target none = []
kept_primary true target (some previous) =
    if previous == target
    then []
    else (record { node_id = previous; binding_role = "standby"; priority = pos 200 }) ∷ []

-- The bindings that `switch_site_primary` saves.
unfoldable pub switched_site_bindings :
    Bool → Uuid → Option Uuid → List SiteBindingRecord → List SiteBindingRecord
switched_site_bindings keep target previous bindings =
    let kept = kept_primary keep target previous in
    (record { node_id = target; binding_role = "primary"; priority = pos 100 }) ∷ kept
    ++ renumber target previous (sort_by le_priority bindings)
        (if is_empty kept then pos 200 else pos 300)
