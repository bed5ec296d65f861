-- ===== src/Hub/Memory/Operations.antt =====
-- The methods of `MemoryRepository` on operation templates and the operations of a node.
pub mod Laws
use pingora_mesh.Base.{
  String, Bool, not, ◌&&◌, Option, none, some, List, keep_if, min_by, sort_by, ◌==◌, nat_eq,
  string_eq, leb,
}
use pingora_mesh.Base.Map
use pingora_mesh.Domain.{Uuid, DateTime}
use pingora_mesh.Hub.Records.{OperationTemplateRecord, NodeOperationRecord, ClaimedNodeOperation}
use pingora_mesh.Hub.Memory.{MemoryState}

unfoldable pub save_operation_template : OperationTemplateRecord → MemoryState → MemoryState
save_operation_template template state = record state {
  operation_template_ids_by_name =
      Map.insert template.name template.template_id state.operation_template_ids_by_name;
  operation_templates = Map.insert template.template_id template state.operation_templates;
}

unfoldable pub operation_template : Uuid → MemoryState → Option OperationTemplateRecord
operation_template template_id state = Map.get template_id state.operation_templates

unfoldable pub operation_template_by_name : String → MemoryState → Option OperationTemplateRecord
operation_template_by_name name state = elim (Map.get name state.operation_template_ids_by_name) [
  | none ↦ none
  | some template_id ↦ Map.get template_id state.operation_templates
]

-- The operations of a template go with it.
unfoldable pub delete_operation_template : Uuid → MemoryState → MemoryState
delete_operation_template template_id state = elim (Map.get template_id state.operation_templates) [
  | none ↦ state
  | some template ↦ record state {
    operation_templates = Map.remove template_id state.operation_templates;
    operation_template_ids_by_name = Map.remove template.name state.operation_template_ids_by_name;
    node_operations =
        Map.retain (λ id operation. not (operation.template_id == template_id))
          state.node_operations;
  }
]

unfoldable pub save_node_operation : NodeOperationRecord → MemoryState → MemoryState
save_node_operation operation state = record state {
  node_operations = Map.insert operation.operation_id operation state.node_operations;
}

unfoldable pub node_operation : Uuid → MemoryState → Option NodeOperationRecord
node_operation operation_id state = Map.get operation_id state.node_operations

-- The newest first.
unfoldable pub list_node_operations : Uuid → MemoryState → List NodeOperationRecord
list_node_operations node_id state =
    sort_by (λ (left right : NodeOperationRecord). leb right.created_at left.created_at)
      (keep_if (λ (o : NodeOperationRecord). o.node_id == node_id)
        (Map.values state.node_operations))

abbrev pub is_claimable : Uuid → NodeOperationRecord → Bool
is_claimable node_id operation = operation.node_id == node_id && operation.exec_status == "approved"

abbrev pub older : NodeOperationRecord → NodeOperationRecord → Bool
older left right = leb left.created_at right.created_at

abbrev pub start : DateTime → NodeOperationRecord → NodeOperationRecord
start now operation = record operation { exec_status = "running"; started_at = some now }

-- The oldest approved operation starts to run, also where its template is gone.
unfoldable pub claim_next_node_operation :
    DateTime → Uuid → MemoryState → Option ClaimedNodeOperation × MemoryState
claim_next_node_operation now node_id state =
    elim (min_by older (keep_if (is_claimable node_id) (Map.values state.node_operations))) [
      | none ↦ (none, state)
      | some next ↦ elim (Map.get next.operation_id state.node_operations) [
        | none ↦ (none, state)
        | some operation ↦
            let claimed = start now operation in
            let state' = record state {
              node_operations = Map.insert next.operation_id claimed state.node_operations;
            } in
            (
              elim (Map.get claimed.template_id state'.operation_templates) [
                | none ↦ none
                | some template ↦ some (record { operation = claimed; template = template })
              ],
              state',
            )
      ]
    ]

unfoldable pub update_node_operation : NodeOperationRecord → MemoryState → MemoryState
update_node_operation operation state = record state {
  node_operations = Map.insert operation.operation_id operation state.node_operations;
}
