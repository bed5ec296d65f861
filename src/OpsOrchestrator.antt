-- ===== src/OpsOrchestrator.antt =====
-- crates/ops-orchestrator: how the command of an operation is rendered from its template. How
-- `serde_json` writes a float is a parameter.
pub mod Laws
use pingora_mesh.Base.{
  ℕ, zero, suc, ◌+◌, ◌-◌, String, Bool, true, false, not, ◌||◌, Option, none, some, List, [], ◌∷◌,
  contains, ◌==◌, string_eq, find, Result, ok, err, ok_or, and_ok, if◌then◌else◌,
}
use pingora_mesh.Base.Text.{◌<>◌, contains_text, replace_text, decimal}
use pingora_mesh.Json.{
  Value, Fields, Number, null, bool, number, string, array, object, end, field, pos_int, neg_int,
  float, lookup,
}

pub data OperationKind : Type 0 where
  vip_bind vip_unbind route_switch service_reload custom_template : OperationKind

pub record OperationTemplate : Type 0 where
  pub name : String
  pub kind : OperationKind
  pub command_template : String
  pub allowed_params : List String
  pub timeout_seconds : ℕ

pub data OperationValidationError : Type 0 where
  unknown_param invalid_value missing_value : String → OperationValidationError

unfoldable pub error_text : OperationValidationError → String
error_text (unknown_param key) = "unknown parameter: " <> key
error_text (invalid_value key) = "invalid parameter value for: " <> key
error_text (missing_value key) = "missing placeholder value for: " <> key

-- The keys of a map.
abbrev pub keys : Fields → List String
keys end = []
keys (field key value fields) = key ∷ keys fields

-- `{{key}}`
abbrev pub placeholder : String → String
placeholder key = "{{" <> key <> "}}"

-- The first key that is not allowed.
unfoldable pub first_unknown : List String → List String → Option String
first_unknown allowed params = find (λ key. not (contains key allowed)) params

module _ (float_text : ℕ → String) where
  -- `Number::to_string`; `neg_int n` is -(n + 1).
  abbrev pub number_text : Number → String
  number_text (pos_int n) = decimal n
  number_text (neg_int n) = "-" <> decimal (n + 1)
  number_text (float bits) = float_text bits

  abbrev pub replacement : Value → Option String
  replacement (string v) = some v
  replacement (number v) = some (number_text v)
  replacement (bool true) = some "true"
  replacement (bool false) = some "false"
  replacement _ = none

  -- The text for a placeholder that occurs.
  unfoldable pub value_text : String → Fields → Result OperationValidationError String
  value_text key params =
      and_ok (ok_or (lookup key params) (missing_value key))
        (λ value. ok_or (replacement value) (invalid_value key))

  -- One round of the loop over the allowed parameters.
  unfoldable pub render_param : String → Fields → String → Result OperationValidationError String
  render_param key params rendered =
      if contains_text rendered (placeholder key)
      then and_ok (value_text key params)
          (λ text. ok (replace_text (placeholder key) text rendered))
      else ok rendered

  unfoldable pub render_params :
      List String → Fields → String → Result OperationValidationError String
  render_params [] params rendered = ok rendered
  render_params (key ∷ allowed) params rendered =
      and_ok (render_param key params rendered) (λ next. render_params allowed params next)

  unfoldable pub render_command :
      OperationTemplate → Fields → Result OperationValidationError String
  render_command template params = elim (first_unknown template.allowed_params (keys params)) [
    | some key ↦ err (unknown_param key)
    | none ↦ render_params template.allowed_params params template.command_template
  ]
