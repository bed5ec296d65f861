-- ===== src/Tests/Operations.antt =====
-- The hub on two approved operations of one node.
use pingora_mesh.Base.{◌≡◌, refl, true, none, some, [], ◌∷◌, nat_eq, keep_if, min_by, least_from}
use pingora_mesh.Base.Map
use pingora_mesh.Json.{object, end}
use pingora_mesh.Hub.Records.{OperationTemplateRecord, NodeOperationRecord, ClaimedNodeOperation}
use pingora_mesh.Hub.Memory.{MemoryState, no_state}
use pingora_mesh.Hub.Memory.Operations.{claim_next_node_operation}
use pingora_mesh.Hub.Memory.Operations.Laws.{
  AreOperations, Claimed, claim_next_node_operation-Claimed,
}

abbrev template : OperationTemplateRecord
template = record {
  template_id = 3;
  name = "restart";
  operation_type = "shell";
  command_template = "restart";
  allowed_params = object end;
  timeout_seconds = 30;
  run_as_user = "root";
  approval_required = true;
  created_at = 0;
}

abbrev late : NodeOperationRecord
late = record {
  operation_id = 1;
  node_id = 9;
  template_id = 3;
  event_id = none;
  input_params = object end;
  exec_status = "approved";
  requested_by = "admin";
  approved_by = none;
  exit_code = none;
  stdout_log = none;
  stderr_log = none;
  started_at = none;
  finished_at = none;
  created_at = 20;
}

abbrev early : NodeOperationRecord
early = record late { operation_id = 2; created_at = 10 }

abbrev state : MemoryState
state = record no_state {
  operation_templates = (3, template) ∷ [];
  node_operations = (1, late) ∷ (2, early) ∷ [];
}

abbrev claimed : ClaimedNodeOperation
claimed = record {
  operation = record early { exec_status = "running"; started_at = some 30 };
  template = template;
}

state-AreOperations : AreOperations state.node_operations
unfolding Map.get
state-AreOperations = (refl, refl, (refl, refl, tt))

early_claimed : (claim_next_node_operation 30 9 state).0 ≡ some claimed
unfolding claim_next_node_operation Map.get Map.values keep_if min_by least_from
early_claimed = refl

claim_next_node_operation-Claimed_example :
    let after = (claim_next_node_operation 30 9 state).1 in
    Claimed 30 9 state after claimed.operation × AreOperations after.node_operations
claim_next_node_operation-Claimed_example =
    claim_next_node_operation-Claimed 30 9 claimed state state-AreOperations early_claimed
