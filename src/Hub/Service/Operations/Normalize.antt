-- ===== src/Hub/Service/Operations/Normalize.antt =====
-- How service.rs normalizes the fields of templates and operations.
use pingora_mesh.Base.{
  max, String, not, ◌||◌, Option, none, some, List, [], map, length, ◌==◌, nat_eq, string_eq, leb,
  sort_by, dedup, keep_if, filter_map, Result, ok, err, ok_or, and_ok, require, if◌then◌else◌,
}
use pingora_mesh.Base.Order.{le_of, cmp_str}
use pingora_mesh.Base.Text.{◌<>◌, trim, char_count, take_chars}
use pingora_mesh.Json.{Value, Fields, object, as_str, as_array, unwrap_or}
use pingora_mesh.SiteConfig.{map_some}
use pingora_mesh.OpsOrchestrator.{
  OperationKind, OperationTemplate, vip_bind, vip_unbind, route_switch, service_reload,
  custom_template,
}
use pingora_mesh.Hub.Records.{OperationTemplateRecord}
use pingora_mesh.Hub.Service.{AppError}
use pingora_mesh.Hub.Service.AppError.{bad_request, internal}

unfoldable pub normalize_allowed_params : List String → Result AppError (List String)
normalize_allowed_params raw =
    let params =
      dedup (sort_by (le_of cmp_str) (keep_if (λ item. not (item == "")) (map trim raw))) in
    and_ok (require (leb (length params) 32) (bad_request "allowed_params is too large"))
      (λ _. ok params)

unfoldable pub normalize_operation_run_as_user : String → String
normalize_operation_run_as_user raw =
    let normalized = trim raw in if normalized == "" then "root" else normalized

unfoldable pub normalize_operation_input_params : Value → Result AppError Fields
normalize_operation_input_params (object fields) = ok fields
normalize_operation_input_params _ = err (bad_request "input_params must be a JSON object")

-- The kinds by their names.
unfoldable pub kind_of : String → Option OperationKind
kind_of name =
    if name == "vip_bind"
    then some vip_bind
    else if name == "vip_unbind"
    then some vip_unbind
    else if name == "route_switch"
    then some route_switch
    else if name == "service_reload"
    then some service_reload
    else if name == "custom_template"
    then some custom_template
    else none

unfoldable pub build_operation_template :
    OperationTemplateRecord → Result AppError OperationTemplate
build_operation_template row =
    and_ok
      (ok_or (kind_of row.operation_type)
        (internal ("unsupported operation type " <> row.operation_type)))
      (λ kind. ok (record {
        name = row.name;
        kind = kind;
        command_template = row.command_template;
        allowed_params = unwrap_or (map_some (filter_map as_str) (as_array row.allowed_params)) [];
        timeout_seconds = max row.timeout_seconds 1;
      }))

unfoldable pub truncate_log_output : String → String
truncate_log_output raw = if leb (char_count raw) 4000 then raw else take_chars 4000 raw <> "..."

module _ (to_lowercase : String → String) where
  unfoldable pub normalize_operation_template_name : String → Result AppError String
  normalize_operation_template_name raw =
      let normalized = to_lowercase (trim raw) in
      if normalized == ""
      then err (bad_request "operation template name is required")
      else ok normalized

  unfoldable pub normalize_operation_type : String → Result AppError String
  normalize_operation_type raw =
      let normalized = to_lowercase (trim raw) in
      if normalized == "vip_bind"
        || normalized == "vip_unbind"
        || normalized == "route_switch"
        || normalized == "service_reload"
        || normalized == "custom_template"
      then ok normalized
      else err (
          bad_request
            "operation_type must be one of vip_bind, vip_unbind, route_switch, service_reload, custom_template")

  unfoldable pub normalize_operation_exec_status : String → Result AppError String
  normalize_operation_exec_status raw =
      let normalized = to_lowercase (trim raw) in
      if normalized == "success"
        || normalized == "failed"
        || normalized == "timeout"
        || normalized == "cancelled"
      then ok normalized
      else err (bad_request "exec_status must be one of success, failed, timeout, cancelled")
