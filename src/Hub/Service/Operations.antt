-- ===== src/Hub/Service/Operations.antt =====
-- The operations of service.rs: templates, the operations of a node, the claim of one by its node, and
-- the result that it reports. Lowercasing by Unicode and the text of a float are parameters.
mod Normalize
pub mod Laws
pub mod Dispatch
unfoldable pub use Normalize.*
use pingora_mesh.Base.{
  ℕ, max, String, Bool, true, false, not, ◌&&◌, ◌||◌, Option, none, some, List, [], ◌∷◌, map,
  length, ◌==◌, nat_eq, string_eq, leb, sort_by, dedup, keep_if, is_empty, filter_map, Result, ok,
  err, ok_or, and_ok, map_err, require, ◌>>=◌, ◌>>◌, pure, lift, gets, ensure, if◌then◌else◌,
}
use pingora_mesh.Base.Int.{ℤ}
use pingora_mesh.Base.Order.{le_of, cmp_str}
use pingora_mesh.Base.Text.{◌<>◌, trim, char_count, take_chars}
use pingora_mesh.Json.{Value, Fields, string, array, object, as_str, as_array, unwrap_or}
use pingora_mesh.SiteConfig.{map_some}
use pingora_mesh.Domain.{Uuid, DateTime}
use pingora_mesh.ConfigCompiler.{to_items}
use pingora_mesh.OpsOrchestrator.{
  OperationKind, OperationTemplate, vip_bind, vip_unbind, route_switch, service_reload,
  custom_template, error_text, render_command,
}
use pingora_mesh.Hub.Records.{
  OperationTemplateRecord, NodeOperationRecord, ClaimedNodeOperation, NodeRecord,
}
use pingora_mesh.Hub.Memory.Nodes.{find_node}
use pingora_mesh.Hub.Memory.Operations.{
  save_operation_template, operation_template, operation_template_by_name,
  delete_operation_template, save_node_operation, node_operation, claim_next_node_operation,
  update_node_operation,
}
use pingora_mesh.Hub.Service.{AppError, HubState, Handler, write, in_repo}
use pingora_mesh.Hub.Service.AppError.{bad_request, not_found, conflict, unauthorized, internal}

pub record CreateOperationTemplateRequest : Type 0 where
  pub name : String
  pub operation_type : String
  pub command_template : String
  pub allowed_params : List String
  pub timeout_seconds : ℕ
  pub run_as_user : String
  pub approval_required : Bool

pub record CreateNodeOperationRequest : Type 0 where
  pub template_id : Uuid
  pub input_params : Value
  pub approval_ticket : Option String

pub record PendingOperationResponse : Type 0 where
  pub operation_id : Uuid
  pub node_id : Uuid
  pub template_id : Uuid
  pub template_name : String
  pub operation_type : String
  pub rendered_command : String
  pub timeout_seconds : ℕ
  pub run_as_user : String
  pub created_at : DateTime

pub record OperationResultRequest : Type 0 where
  pub node_id : Uuid
  pub exec_status : String
  pub exit_code : ℤ
  pub stdout : String
  pub stderr : String
  pub finished_at : DateTime

pub record OperationResultResponse : Type 0 where
  pub operation_id : Uuid
  pub node_id : Uuid
  pub exec_status : String

pub record DeleteOperationTemplateResponse : Type 0 where
  pub template_id : Uuid
  pub name : String
  pub deleted : Bool

module _ (to_lowercase : String → String) where
  abbrev pub template_of :
      Uuid
      → DateTime
      → (name operation_type : String) → List String
      → CreateOperationTemplateRequest
      → OperationTemplateRecord
  template_of template_id created_at name operation_type allowed_params request = record {
    template_id = template_id;
    name = name;
    operation_type = operation_type;
    command_template = trim request.command_template;
    allowed_params = array (to_items (map string allowed_params));
    timeout_seconds = max request.timeout_seconds 1;
    run_as_user = normalize_operation_run_as_user request.run_as_user;
    approval_required = request.approval_required;
    created_at = created_at;
  }

  -- A new template draws its id and its time; one with the name of another takes its place.
  unfoldable pub create_operation_template :
      (new_id : Uuid) (now : DateTime)
      → CreateOperationTemplateRequest
      → Handler OperationTemplateRecord
  create_operation_template new_id now request = do
    name ← lift (normalize_operation_template_name to_lowercase request.name)
    operation_type ← lift (normalize_operation_type to_lowercase request.operation_type)
    ensure (not (trim request.command_template == "")) (bad_request "command_template is required")
    allowed_params ← lift (normalize_allowed_params request.allowed_params)
    existing ← gets (λ hub. operation_template_by_name name hub.repo)
    let template =
        template_of
          (unwrap_or (map_some (λ (t : OperationTemplateRecord). t.template_id) existing) new_id)
          (unwrap_or (map_some (λ (t : OperationTemplateRecord). t.created_at) existing) now) name
          operation_type allowed_params request
    write (save_operation_template template)
    pure template

  abbrev pub is_another : Uuid → Option OperationTemplateRecord → Bool
  is_another template_id none = false
  is_another template_id (some template) = not (template.template_id == template_id)

  unfoldable pub update_operation_template :
      Uuid → CreateOperationTemplateRequest → Handler OperationTemplateRecord
  update_operation_template template_id request = do
    found ← gets (λ hub. operation_template template_id hub.repo)
    existing ← lift (ok_or found (not_found "operation template not found"))
    name ← lift (normalize_operation_template_name to_lowercase request.name)
    operation_type ← lift (normalize_operation_type to_lowercase request.operation_type)
    ensure (not (trim request.command_template == "")) (bad_request "command_template is required")
    duplicated ← gets (λ hub. operation_template_by_name name hub.repo)
    ensure (not (is_another template_id duplicated))
        (conflict "operation template name already exists")
    allowed_params ← lift (normalize_allowed_params request.allowed_params)
    let template =
        template_of template_id existing.created_at name operation_type allowed_params request
    write (save_operation_template template)
    pure template

  -- The result that a node reports.
  abbrev pub reported :
      DateTime → String → OperationResultRequest → NodeOperationRecord → NodeOperationRecord
  reported now exec_status request operation = record operation {
    exec_status = exec_status;
    exit_code = some request.exit_code;
    stdout_log = some (truncate_log_output request.stdout);
    stderr_log = some (truncate_log_output request.stderr);
    finished_at = some request.finished_at;
    started_at = some (unwrap_or operation.started_at now);
  }

  unfoldable pub report_node_operation_result :
      (now : DateTime) → Uuid → OperationResultRequest → Handler OperationResultResponse
  report_node_operation_result now operation_id request = do
    found ← gets (λ hub. node_operation operation_id hub.repo)
    operation ← lift (ok_or found (not_found "node operation not found"))
    ensure (operation.node_id == request.node_id) (unauthorized "operation does not belong to node")
    exec_status ← lift (normalize_operation_exec_status to_lowercase request.exec_status)
    write (update_node_operation (reported now exec_status request operation))
    pure (record {
      operation_id = operation_id;
      node_id = request.node_id;
      exec_status = exec_status;
    })

-- The memory repository deletes the operations of a template with it, and never refuses.
unfoldable pub remove_operation_template : Uuid → Handler DeleteOperationTemplateResponse
remove_operation_template template_id = do
  found ← gets (λ hub. operation_template template_id hub.repo)
  template ← lift (ok_or found (not_found "operation template not found"))
  write (delete_operation_template template_id)
  pure (record { template_id = template_id; name = template.name; deleted = true })

module _ (float_text : ℕ → String) where
  -- The command of a template for some parameters.
  unfoldable pub command_of : OperationTemplateRecord → Fields → Result AppError String
  command_of row params = and_ok (build_operation_template row) (λ template.
      map_err (λ e. bad_request (error_text e)) (render_command float_text template params))

  abbrev pub approval : OperationTemplateRecord → Option String → String → String × Option String
  approval template none requested_by =
      if template.approval_required then ("pending", none) else ("approved", some requested_by)
  approval template (some ticket) requested_by = ("approved", some ticket)

  abbrev pub ticket_of : Option String → Option String
  ticket_of none = none
  ticket_of (some ticket) = let text = trim ticket in if text == "" then none else some text

  abbrev pub new_operation :
      Uuid
      → DateTime
      → Uuid
      → OperationTemplateRecord
      → Fields
      → Option String
      → String
      → NodeOperationRecord
  new_operation operation_id now node_id template params ticket requested_by =
      let (exec_status, approved_by) = approval template ticket requested_by in
      record {
        operation_id = operation_id;
        node_id = node_id;
        template_id = template.template_id;
        event_id = none;
        input_params = object params;
        exec_status = exec_status;
        requested_by = requested_by;
        approved_by = approved_by;
        exit_code = none;
        stdout_log = none;
        stderr_log = none;
        started_at = none;
        finished_at = none;
        created_at = now;
      }

  unfoldable pub create_node_operation :
      (operation_id : Uuid) (now : DateTime)
      → Uuid
      → CreateNodeOperationRequest
      → String
      → Handler NodeOperationRecord
  create_node_operation operation_id now node_id request requested_by = do
    found ← gets (λ hub. find_node node_id hub.repo)
    node ← lift (ok_or found (not_found "node not found"))
    found' ← gets (λ hub. operation_template request.template_id hub.repo)
    template ← lift (ok_or found' (not_found "operation template not found"))
    params ← lift (normalize_operation_input_params request.input_params)
    command ← lift (command_of template params)
    let operation =
        new_operation operation_id now node_id template params (ticket_of request.approval_ticket)
          requested_by
    write (save_node_operation operation)
    pure operation

  unfoldable pub claimed_node_operation_dispatch :
      ClaimedNodeOperation → Result AppError PendingOperationResponse
  claimed_node_operation_dispatch claimed =
      and_ok (build_operation_template claimed.template) (λ template.
        and_ok (normalize_operation_input_params claimed.operation.input_params) (λ params.
          and_ok
            (map_err (λ e. bad_request (error_text e)) (render_command float_text template params))
            (λ rendered_command. ok (record {
              operation_id = claimed.operation.operation_id;
              node_id = claimed.operation.node_id;
              template_id = claimed.template.template_id;
              template_name = claimed.template.name;
              operation_type = claimed.template.operation_type;
              rendered_command = rendered_command;
              timeout_seconds = template.timeout_seconds;
              run_as_user = claimed.template.run_as_user;
              created_at = claimed.operation.created_at;
            }))))

  abbrev pub dispatch :
      Option ClaimedNodeOperation → Result AppError (Option PendingOperationResponse)
  dispatch none = ok none
  dispatch (some claimed) =
      and_ok (claimed_node_operation_dispatch claimed) (λ response. ok (some response))

  -- The operation runs before its command is rendered.
  unfoldable pub claim_node_operation :
      (now : DateTime) → Uuid → Handler (Option PendingOperationResponse)
  claim_node_operation now node_id hub =
      let (claimed, repo) = claim_next_node_operation now node_id hub.repo in
      (dispatch claimed, record hub { repo = repo })
