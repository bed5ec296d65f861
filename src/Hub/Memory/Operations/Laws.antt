-- ===== src/Hub/Memory/Operations/Laws.antt =====
-- Which operation a node is given, and that it is given once.
use pingora_mesh.Base.{
  ◌≡◌, refl, sym, ap, subst, Bool-cases, true, Option, none, some, some_inj, List, [], ◌∷◌, Memᴰ,
  keep_if, min_by, mem-keep_if, min_by-mem, min_by-below, keep_if-mem, All-mem, arith, nat_eq,
  string_eq, nat_beq_iff, Option-cases, inl, inr, ◌==◌, IsPreorder, ◌≤◌,
}
use pingora_mesh.Base.Map
use pingora_mesh.Base.Map.{Map, get-insert}
use pingora_mesh.Domain.{Uuid, DateTime}
use pingora_mesh.Hub.Records.{OperationTemplateRecord, NodeOperationRecord, ClaimedNodeOperation}
use pingora_mesh.Hub.Memory.{MemoryState}
use pingora_mesh.Hub.Memory.Operations.{is_claimable, older, start, claim_next_node_operation}

-- Every operation is stored once, under its own id.
abbrev pub AreOperations : Map Uuid NodeOperationRecord → Type 0
AreOperations [] = Unit
AreOperations ((id, operation) ∷ m) =
    (operation.operation_id ≡ id) × (Map.get id m ≡ none) × AreOperations m

insert-AreOperations :
    (o : NodeOperationRecord) (m : Map Uuid NodeOperationRecord)
    → AreOperations m
    → AreOperations (Map.insert o.operation_id o m)
unfolding Map.insert Map.get
insert-AreOperations o [] h = (refl, refl, tt)
insert-AreOperations o ((id, w) ∷ m) (own, fresh, h) = elim (Bool-cases (id == o.operation_id)) [
  | inl e ↦
      let same : id ≡ o.operation_id = (nat_beq_iff id o.operation_id).0 e in
      rw e (refl, rw same at fresh, h)
  | inr e ↦ rw e (
    own,
    ground (arith, get-insert o.operation_id id o m, nat_beq_iff id o.operation_id),
    insert-AreOperations o m h,
  )
]

mem-AreOperations :
    (o : NodeOperationRecord) (m : Map Uuid NodeOperationRecord)
    → AreOperations m
    → Memᴰ o (Map.values m)
    → Map.get o.operation_id m ≡ some o
unfolding Map.values Map.get
mem-AreOperations o [] h mem = elim mem [ ]
mem-AreOperations o ((id, w) ∷ m) (own, fresh, h) (Memᴰ.head e) =
    let there : o.operation_id ≡ id = subst (λ v. v.operation_id ≡ id) (sym e) own in
    rw e (ground (arith, nat_beq_iff id w.operation_id))
mem-AreOperations o ((id, w) ∷ m) (own, fresh, h) (Memᴰ.tail mem) =
    let found = mem-AreOperations o m h mem in
    elim (Bool-cases (id == o.operation_id)) [
      | inl e ↦
          let same : id ≡ o.operation_id = (nat_beq_iff id o.operation_id).0 e in
          absurd (cc (rw same at fresh, found))
      | inr e ↦ rw e found
    ]

older-IsPreorder : IsPreorder older
older-IsPreorder = record { total = λ a b h. ground arith; trans = λ a b c h k. ground arith }

-- The operation as it was before it was claimed.
pub record Claimed (now : DateTime) (node_id : Uuid) (before after : MemoryState)
    (claimed : NodeOperationRecord) : Type 0 where
  pub old : NodeOperationRecord
  pub stored : Map.get old.operation_id before.node_operations ≡ some old
  pub claimable : is_claimable node_id old ≡ true
  pub oldest :
      (o : NodeOperationRecord)
      → Memᴰ o (Map.values before.node_operations)
      → is_claimable node_id o ≡ true
      → old.created_at ≤ o.created_at
  pub running : claimed ≡ start now old
  pub written : Map.get old.operation_id after.node_operations ≡ some claimed

dispatched :
    (operation : NodeOperationRecord) (claimed : ClaimedNodeOperation)
    (found : Option OperationTemplateRecord)
    → elim found [
      | none ↦ none
      | some template ↦ some (record { operation = operation; template = template })
    ]
      ≡ some claimed
    → claimed.operation ≡ operation
dispatched operation claimed none h = absurd (cc h)
dispatched operation claimed (some template) h = sym (ap (λ c. c.operation) (some_inj h))

-- Where every operation is stored once, under its own id, the operation that a node is given is
-- the oldest of its approved ones, and afterwards it is stored as running; every operation is
-- still stored once, under its own id.
pub claim_next_node_operation-Claimed :
    (now : DateTime) (node_id : Uuid) (claimed : ClaimedNodeOperation) (state : MemoryState)
    → AreOperations state.node_operations
    → (claim_next_node_operation now node_id state).0 ≡ some claimed
    → let after = (claim_next_node_operation now node_id state).1 in
      Claimed now node_id state after claimed.operation × AreOperations after.node_operations
unfolding claim_next_node_operation
claim_next_node_operation-Claimed now node_id claimed state h given =
    elim (Option-cases (min_by older claimable)) [
      | inl e ↦ absurd (cc (rw (e, claim_next_node_operation) at given))
      | inr (next, e) ↦
          let (passes, mem) =
            mem-keep_if (is_claimable node_id) next operations
              (min_by-mem older claimable next e) in
          let found = mem-AreOperations next state.node_operations h mem in
          let running : claimed.operation ≡ start now next =
            dispatched (start now next) claimed (Map.get next.template_id state.operation_templates)
              (rw (e, found, claim_next_node_operation) at given) in
          rw (e, found, claim_next_node_operation)
            (
              record {
                old = next;
                stored = found;
                claimable = passes;
                oldest = λ o m k.
                    let first =
                      All-mem (λ p. older next p ≡ true) o claimable
                        (min_by-below older older-IsPreorder claimable next e)
                        (keep_if-mem (is_claimable node_id) o operations m k) in
                    ground arith;
                running = running;
                written = ground (
                  arith,
                  running,
                  get-insert next.operation_id next.operation_id (start now next)
                      state.node_operations,
                  nat_beq_iff next.operation_id next.operation_id,
                );
              },
              insert-AreOperations (start now next) state.node_operations h,
            )
    ]
  where
    operations : List NodeOperationRecord
    operations = Map.values state.node_operations

    claimable : List NodeOperationRecord
    claimable = keep_if (is_claimable node_id) operations
