-- ===== src/Hub/Service/Operations/Laws.antt =====
-- What a template that a request creates can be built back to, and how long a stored log is.
use pingora_mesh.Base.{
  contains, dedup, sort_by, keep_if, length, not, ◌&&◌, ◌≤◌, ◌≡◌, ◌≢◌, ◌∙◌, refl, sym, ap, subst,
  String, false, some, List, [], ◌∷◌, map, arith, inl, inr, max, ok, Result-cases, Option-cases,
  Bool-cases, filter_map, string_eq, nat_eq, ==_refl, Result, err, eq_iff, ◌==◌,
}
use pingora_mesh.Base.Contains.{contains-keep_if, contains-sort_by, contains-dedup}
use pingora_mesh.Base.Order.{le_of, cmp_str}
use pingora_mesh.Base.Text.{trim, char_count, take_chars, char_count-take_chars, char_count-append}
use pingora_mesh.Json.{Value, string, items, as_str}
use pingora_mesh.Domain.{Uuid, DateTime}
use pingora_mesh.ConfigCompiler.{to_items}
use pingora_mesh.OpsOrchestrator.{
  OperationTemplate, OperationKind, vip_bind, vip_unbind, route_switch, service_reload,
  custom_template,
}
use pingora_mesh.Hub.Records.{OperationTemplateRecord}
use pingora_mesh.Hub.Memory.Operations.{operation_template, save_operation_template}
use pingora_mesh.Base.Map.{get-insert}
use pingora_mesh.Hub.Memory.{MemoryState}
use pingora_mesh.Hub.Service.{AppError, HubState}
use pingora_mesh.Hub.Service.Operations.{
  CreateOperationTemplateRequest, normalize_operation_type, kind_of, build_operation_template,
  truncate_log_output, create_operation_template, normalize_operation_template_name,
  normalize_allowed_params, template_of,
}

items-to_items : (vs : List Value) → items (to_items vs) ≡ vs
unfolding items
items-to_items [] = refl
items-to_items (v ∷ vs) = ap (λ rest. v ∷ rest) (items-to_items vs)

filter_map-string : (texts : List String) → filter_map as_str (map string texts) ≡ texts
unfolding filter_map
filter_map-string [] = refl
filter_map-string (t ∷ texts) = ap (λ rest. t ∷ rest) (filter_map-string texts)

-- A stored log has at most 4,003 characters.
pub truncate_log_output-bounded : (raw : String) → char_count (truncate_log_output raw) ≤ 4003
unfolding truncate_log_output
truncate_log_output-bounded raw =
    ground (arith, char_count-take_chars 4000 raw, char_count-append (take_chars 4000 raw) "...")

module _ (to_lowercase : String → String) where
  normalize_operation_type-kind :
      (raw name : String)
      → normalize_operation_type to_lowercase raw ≡ ok name
      → (kind : OperationKind) × (kind_of name ≡ some kind)
  unfolding normalize_operation_type kind_of
  normalize_operation_type-kind raw name done =
      let normalized = to_lowercase (trim raw) in
      elim (Option-cases (kind_of name)) [
        | inl none_fits ↦ absurd (ground (arith, none_fits, done))
        | inr (kind, e) ↦ (kind, e)
      ]

-- The name of a kind.
abbrev pub kind_name : OperationKind → String
kind_name vip_bind = "vip_bind"
kind_name vip_unbind = "vip_unbind"
kind_name route_switch = "route_switch"
kind_name service_reload = "service_reload"
kind_name custom_template = "custom_template"

kind_of-kind_name :
    (name : String) (kind : OperationKind) → kind_of name ≡ some kind → kind_name kind ≡ name
unfolding kind_of
kind_of-kind_name name kind h = ground (
  arith,
  eq_iff name "vip_bind",
  eq_iff name "vip_unbind",
  eq_iff name "route_switch",
  eq_iff name "service_reload",
  eq_iff name "custom_template",
)

-- What a template builds back to: what the request asks for.
pub record Builds (to_lowercase : String → String) (request : CreateOperationTemplateRequest)
    (row : OperationTemplateRecord) (template : OperationTemplate) : Type 0 where
  pub builds : build_operation_template row ≡ ok template
  pub kind : kind_name template.kind ≡ to_lowercase (trim request.operation_type)
  pub params : normalize_allowed_params request.allowed_params ≡ ok template.allowed_params
  pub allowed :
      (p : String)
      → contains p template.allowed_params
        ≡ (not (p == "") && contains p (map trim request.allowed_params))
  pub few : length template.allowed_params ≤ 32
  pub command : template.command_template ≡ trim request.command_template
  pub command_given : template.command_template ≢ ""
  pub timeout : template.timeout_seconds ≡ max request.timeout_seconds 1

-- The parameters of a request that are kept are those with more than blanks.
normalize_allowed_params-contains :
    (raw allowed : List String) (p : String)
    → normalize_allowed_params raw ≡ ok allowed
    → contains p allowed ≡ (not (p == "") && contains p (map trim raw))
unfolding normalize_allowed_params
normalize_allowed_params-contains raw allowed p normal =
    let given = keep_if (λ item. not (item == "")) (map trim raw) in
    let kept : allowed ≡ dedup (sort_by (le_of cmp_str) given) = ground arith in
    ap (contains p) kept
    ∙ contains-dedup p (sort_by (le_of cmp_str) given)
    ∙ contains-sort_by (le_of cmp_str) p given
    ∙ contains-keep_if (λ item. not (item == "")) p (map trim raw)

normalize_allowed_params-few :
    (raw allowed : List String) → normalize_allowed_params raw ≡ ok allowed → length allowed ≤ 32
unfolding normalize_allowed_params
normalize_allowed_params-few raw allowed normal = ground arith

module _ (to_lowercase : String → String) where
  normalize_operation_type-lower :
      (raw name : String)
      → normalize_operation_type to_lowercase raw ≡ ok name
      → name ≡ to_lowercase (trim raw)
  unfolding normalize_operation_type
  normalize_operation_type-lower raw name done = ground arith

  template_of-Builds :
      (template_id : Uuid) (created_at : DateTime) (name operation_type : String)
      (allowed : List String) (request : CreateOperationTemplateRequest)
      → normalize_operation_type to_lowercase request.operation_type ≡ ok operation_type
      → normalize_allowed_params request.allowed_params ≡ ok allowed
      → (trim request.command_template == "") ≡ false
      → (template : OperationTemplate) × Builds to_lowercase request
          (template_of to_lowercase template_id created_at name operation_type allowed request)
          template
  unfolding build_operation_template
  template_of-Builds template_id created_at name operation_type allowed request known normal given =
      let (kind, e) =
        normalize_operation_type-kind to_lowercase request.operation_type operation_type known in
      let read : filter_map as_str (items (to_items (map string allowed))) ≡ allowed =
        ap (filter_map as_str) (items-to_items (map string allowed)) ∙ filter_map-string allowed in
      (
        record {
          name = name;
          kind = kind;
          command_template = trim request.command_template;
          allowed_params = filter_map as_str (items (to_items (map string allowed)));
          timeout_seconds = max (max request.timeout_seconds 1) 1;
        },
        record {
          builds = rw (e, build_operation_template) refl;
          kind =
              kind_of-kind_name operation_type kind e
              ∙ normalize_operation_type-lower request.operation_type operation_type known;
          params = normal ∙ ap ok (sym read);
          allowed = λ p.
              ap (contains p) read
              ∙ normalize_allowed_params-contains request.allowed_params allowed p normal;
          few =
              subst (λ l. length l ≤ 32) (sym read)
                (normalize_allowed_params-few request.allowed_params allowed normal);
          command = refl;
          command_given = λ blank. ground (arith, eq_iff (trim request.command_template) "");
          timeout = ground arith;
        },
      )

  template-stored :
      (row : OperationTemplateRecord) (repo : MemoryState)
      → operation_template row.template_id (save_operation_template row repo) ≡ some row
  unfolding operation_template save_operation_template
  template-stored row repo =
      get-insert row.template_id row.template_id row repo.operation_templates
      ∙ rw (==_refl row.template_id) refl

  -- A template that a request creates is stored, and builds back to what was asked for: to the kind
  -- that the request names, exactly the parameters of the request that have more than blanks,
  -- without the blanks around them and at most 32 of them, its command without the blanks around
  -- it, which is not empty, and its timeout, or a second where that is zero.
  pub create_operation_template-Builds :
      (new_id : Uuid) (now : DateTime) (request : CreateOperationTemplateRequest)
      (row : OperationTemplateRecord) (hub after : HubState)
      → create_operation_template to_lowercase new_id now request hub ≡ (ok row, after)
      → (operation_template row.template_id after.repo ≡ some row)
        × ((template : OperationTemplate) × Builds to_lowercase request row template)
  unfolding create_operation_template
  create_operation_template-Builds new_id now request row hub after done =
      let CreatedBuilds : Result AppError OperationTemplateRecord × HubState → Type 0 = λ r.
        elim r.0 [
          | err e ↦ Unit
          | ok row' ↦
              (operation_template row'.template_id r.1.repo ≡ some row')
              × ((template : OperationTemplate) × Builds to_lowercase request row' template)
        ] in
      elim (Result-cases (normalize_operation_template_name to_lowercase request.name)) [
        | inl (e, refused) ↦ absurd (cc (rw (refused, create_operation_template) at done))
        | inr (name, named) ↦
            elim (Result-cases (normalize_operation_type to_lowercase request.operation_type)) [
              | inl (e, refused) ↦
                  absurd (cc (rw (named, refused, create_operation_template) at done))
              | inr (operation_type, known) ↦
                  elim (Bool-cases (trim request.command_template == "")) [
                    | inl blank ↦
                        absurd (cc (rw (named, known, blank, create_operation_template) at done))
                    | inr given ↦
                        elim (Result-cases (normalize_allowed_params request.allowed_params)) [
                          | inl (e, refused) ↦ absurd (
                              cc (
                                rw (named, known, given, refused, create_operation_template) at
                                  done))
                          | inr (allowed, normal) ↦
                              let stored =
                                rw (named, known, given, normal, create_operation_template) at
                                  done in
                              subst CreatedBuilds stored (
                                template-stored _ hub.repo,
                                template_of-Builds _ _ name operation_type allowed request known
                                    normal given,
                              )
                        ]
                  ]
            ]
      ]
