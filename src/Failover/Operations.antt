-- ===== src/Failover/Operations.antt =====
-- The operations that a policy asks for after a switch: `parse_post_switch_operation` and
-- `load_operation_template` of apps/failover-worker/src/main.rs.
use pingora_mesh.Base.{
  String, Bool, ◌||◌, Option, none, some, List, ◌==◌, nat_eq, string_eq, find, if◌then◌else◌,
}
use pingora_mesh.Json.{Value, Fields, object, end, lookup, as_object, and_then, unwrap_or}
use pingora_mesh.Domain.{Uuid}
use pingora_mesh.Failover.Snapshot.{PolicySnapshot}
use pingora_mesh.Failover.Dns.{Parsers, non_blank, text_of}

pub record PostSwitchOperationSpec : Type 0 where
  pub node_id : Uuid
  pub template_id : Option Uuid
  pub template_name : Option String
  pub input_params : Value

pub record LoadedOperationTemplate : Type 0 where
  pub id : Uuid
  pub name : String
  pub approval_required : Bool

-- The node that an operation runs on, by its `target`.
unfoldable pub target_node : String → PolicySnapshot → Uuid
target_node target policy =
    if target == "standby" || target == "target" || target == "new_primary"
    then policy.standby_node_id
    else if target == "primary" || target == "source" || target == "old_primary"
    then policy.primary_node_id
    else policy.standby_node_id

abbrev pub params_of : Option Value → Value
params_of (some (object fields)) = object fields
params_of _ = object end

abbrev pub spec_of :
    Fields → PolicySnapshot → Option Uuid → Option String → Option PostSwitchOperationSpec
spec_of fields policy none none = none
spec_of fields policy template_id template_name = some (record {
  node_id = target_node (unwrap_or (text_of "target" fields) "standby") policy;
  template_id = template_id;
  template_name = template_name;
  input_params = params_of (lookup "input_params" fields);
})

unfoldable pub parse_post_switch_operation :
    Parsers → Value → PolicySnapshot → Option PostSwitchOperationSpec
parse_post_switch_operation parsers value policy = and_then (as_object value) (λ fields.
    spec_of fields policy (and_then (text_of "template_id" fields) parsers.parse_uuid)
      (non_blank (text_of "template_name" fields)))

-- The row of the template that is asked for: by id, where there is one, or else by name.
unfoldable pub find_operation_template :
    Option Uuid → Option String → List LoadedOperationTemplate → Option LoadedOperationTemplate
find_operation_template (some template_id) template_name rows =
    find (λ (row : LoadedOperationTemplate). row.id == template_id) rows
find_operation_template none (some template_name) rows =
    find (λ (row : LoadedOperationTemplate). row.name == template_name) rows
find_operation_template none none rows = none
