-- ===== src/Tests/Commands.antt =====
-- A template with one parameter, and an operation that uses it.
use pingora_mesh.Base.{
  ◌≡◌, ◌↔◌, ◌⊎◌, ◌≤◌, refl, String, true, false, none, some, [], ◌∷◌, ok, find, contains,
  filter_map, keep_if, sort_by, insert_by, dedup, ap, sym, some_inj,
}
use pingora_mesh.Base.Text.{
  trim, trim_start_matches, trim_end_matches, is_whitespace, contains_text, replace_text,
  replace_from, starts_with, char_count,
}
use pingora_mesh.Json.{Fields, string, array, nil, object, end, field, lookup, items}
use pingora_mesh.OpsOrchestrator.{
  OperationTemplate, service_reload, unknown_param, first_unknown, render_command, render_params,
  render_param, value_text,
}
use pingora_mesh.OpsOrchestrator.Laws.{Explains, render_command-total, render_command-Explains}
use pingora_mesh.Domain.{NodeStatus}
use pingora_mesh.Base.Map
use pingora_mesh.Hub.Records.{OperationTemplateRecord, NodeOperationRecord, NodeRecord}
use pingora_mesh.Hub.Memory.{no_state}
use pingora_mesh.Hub.Memory.Nodes.{find_node}
use pingora_mesh.Hub.Memory.Operations.{
  operation_template, operation_template_by_name, save_operation_template, node_operation,
  save_node_operation, is_claimable,
}
use pingora_mesh.Hub.Tokens.{no_tokens}
use pingora_mesh.Hub.Service.{HubState}
use pingora_mesh.Hub.Service.Operations.{
  CreateOperationTemplateRequest, CreateNodeOperationRequest, PendingOperationResponse, kind_of,
  build_operation_template, command_of, create_node_operation, normalize_operation_input_params,
  normalize_operation_type, truncate_log_output, template_of, claim_node_operation,
  create_operation_template, normalize_operation_template_name, normalize_allowed_params,
}
use pingora_mesh.Hub.Service.Operations.Dispatch.{
  HasTicket, create_node_operation-dispatched, create_node_operation-claimable,
}
use pingora_mesh.Hub.Service.Operations.Laws.{
  Builds, create_operation_template-Builds, truncate_log_output-bounded,
}

abbrev template : OperationTemplate
template = record {
  name = "reload";
  kind = service_reload;
  command_template = "systemctl reload {{unit}}";
  allowed_params = "unit" ∷ [];
  timeout_seconds = 30;
}

abbrev params : Fields
params = field "unit" (string "nginx") end

unit_is_rendered : (command : String) × (render_command (λ bits. "") template params ≡ ok command)
unfolding contains lookup
unit_is_rendered =
    render_command-total (λ bits. "") template params (refl, tt)
      ((string "nginx", "nginx", refl, refl), tt)

command_of_unit : render_command (λ bits. "") template params ≡ ok "systemctl reload nginx"
unfolding render_command first_unknown render_params render_param value_text find contains
    contains_text starts_with replace_text replace_from lookup
command_of_unit = refl

render_command-Explains_example :
    Explains (λ bits. "") template (field "user" (string "root") end) (unknown_param "user")
unfolding render_command first_unknown find contains
render_command-Explains_example =
    render_command-Explains (λ bits. "") template (field "user" (string "root") end)
      (unknown_param "user") refl

short_log_fits : char_count (truncate_log_output "started") ≤ 4003
short_log_fits = truncate_log_output-bounded "started"

abbrev row : OperationTemplateRecord
row = record {
  template_id = 3;
  name = "reload";
  operation_type = "service_reload";
  command_template = "systemctl reload nginx";
  allowed_params = array nil;
  timeout_seconds = 30;
  run_as_user = "root";
  approval_required = true;
  created_at = 0;
}

abbrev node : NodeRecord
node = record {
  identity = record {
    id = 9;
    node_code = "edge-9";
    name = "Edge";
    region = "eu";
    idc = "a";
    status = NodeStatus.online;
  };
  runtime = record {
    active_config_version = none;
    last_seen_at = none;
    site_count = 0;
    health_score = 0;
  };
  labels = object end;
  hostname = none;
  public_ip = none;
  private_ip = none;
  bootstrap_token = none;
  pingora_version = none;
  agent_version = none;
}

abbrev hub : HubState
hub = record {
  repo = record no_state { nodes = (9, node) ∷ []; operation_templates = (3, row) ∷ [] };
  tokens = no_tokens;
  release_counter = 1;
}

abbrev request : CreateNodeOperationRequest
request = record { template_id = 3; input_params = object end; approval_ticket = some "CHG-1" }

abbrev operation : NodeOperationRecord
operation = record {
  operation_id = 5;
  node_id = 9;
  template_id = 3;
  event_id = none;
  input_params = object end;
  exec_status = "approved";
  requested_by = "admin";
  approved_by = some "CHG-1";
  exit_code = none;
  stdout_log = none;
  stderr_log = none;
  started_at = none;
  finished_at = none;
  created_at = 40;
}

abbrev taken_in : HubState
taken_in = record hub { repo = record hub.repo { node_operations = (5, operation) ∷ [] } }

accepted : create_node_operation (λ bits. "") 5 40 9 request "admin" hub ≡ (ok operation, taken_in)
unfolding create_node_operation command_of build_operation_template kind_of render_command
    first_unknown render_params find normalize_operation_input_params operation_template find_node
    Map.get Map.insert save_node_operation items filter_map trim trim_start_matches trim_end_matches
    is_whitespace
accepted = refl

row_is_keyed :
    (t : OperationTemplateRecord) → operation_template 3 hub.repo ≡ some t → t.template_id ≡ 3
unfolding operation_template Map.get
row_is_keyed t h = ap (λ (r : OperationTemplateRecord). r.template_id) (sym (some_inj h))

create_node_operation-dispatched_example :
    (template : OperationTemplateRecord) × (params : Fields) × (response : PendingOperationResponse)
    × (operation_template 3 hub.repo ≡ some template)
    × (object end ≡ object params)
    × (command_of (λ bits. "") template params ≡ ok response.rendered_command)
    × (response.operation_id ≡ 5)
    × ((claim_node_operation (λ bits. "") 50 9 taken_in).0 ≡ ok (some response))
unfolding Map.values
create_node_operation-dispatched_example =
    create_node_operation-dispatched (λ bits. "") 5 40 9 request "admin" operation hub taken_in 50
      row_is_keyed tt accepted refl

create_node_operation-claimable_example :
    (template : OperationTemplateRecord) × (operation_template 3 hub.repo ≡ some template)
    × (node_operation 5 taken_in.repo ≡ some operation)
    × (operation.node_id ≡ 9)
    × ((operation.exec_status ≡ "approved")
        ↔ ((template.approval_required ≡ false) ⊎ HasTicket (some "CHG-1")))
    × ((is_claimable 9 operation ≡ true) ↔ (operation.exec_status ≡ "approved"))
create_node_operation-claimable_example =
    create_node_operation-claimable (λ bits. "") 5 40 9 request "admin" operation hub taken_in
      accepted

abbrev wanted : CreateOperationTemplateRequest
wanted = record {
  name = "Reload";
  operation_type = "service_reload";
  command_template = "systemctl reload {{unit}}";
  allowed_params = "unit" ∷ [];
  timeout_seconds = 0;
  run_as_user = "";
  approval_required = false;
}

abbrev made : OperationTemplateRecord
made = template_of (λ s. s) 3 0 "Reload" "service_reload" ("unit" ∷ []) wanted

wanted_is_made :
    create_operation_template (λ s. s) 3 0 wanted (record hub { repo = no_state })
    ≡ (ok made, record hub { repo = save_operation_template made no_state })
unfolding create_operation_template normalize_operation_template_name normalize_operation_type
    normalize_allowed_params operation_template_by_name trim trim_start_matches trim_end_matches
    is_whitespace keep_if sort_by insert_by dedup Map.get
wanted_is_made = refl

create_operation_template-Builds_example :
    (operation_template 3 (save_operation_template made no_state) ≡ some made)
    × ((template : OperationTemplate) × Builds (λ s. s) wanted made template)
create_operation_template-Builds_example =
    create_operation_template-Builds (λ s. s) 3 0 wanted made (record hub { repo = no_state })
      (record hub { repo = save_operation_template made no_state }) wanted_is_made
