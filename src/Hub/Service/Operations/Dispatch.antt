-- ===== src/Hub/Service/Operations/Dispatch.antt =====
-- What becomes of an operation that was accepted: when it can be claimed, and what its node is given.
use pingora_mesh.Base.{
  ◌≡◌, ◌≢◌, ◌⊎◌, ◌↔◌, ◌∙◌, refl, sym, ap, String, Bool, true, false, Option, none, some, some_inj,
  ok_inj, [], ◌∷◌, arith, inl, inr, ok, and_ok, Result-cases, Option-cases, Bool-cases, All,
  keep_if, keep_if-none, nat_beq_iff, min_by, least_from, string_eq, nat_eq, ==_refl, eq_iff, ◌==◌,
  ℕ,
}
use pingora_mesh.Base.Map
use pingora_mesh.Base.Map.{get-insert}
use pingora_mesh.Base.Text.{trim}
use pingora_mesh.Json.{Value, Fields, null, bool, number, string, array, object}
use pingora_mesh.Domain.{Uuid, DateTime}
use pingora_mesh.OpsOrchestrator.{render_command}
use pingora_mesh.Hub.Records.{OperationTemplateRecord, NodeOperationRecord}
use pingora_mesh.Hub.Memory.{MemoryState}
use pingora_mesh.Hub.Memory.Nodes.{find_node}
use pingora_mesh.Hub.Memory.Operations.{
  operation_template, node_operation, save_node_operation, claim_next_node_operation, is_claimable,
  start,
}
use pingora_mesh.Hub.Service.{HubState}
use pingora_mesh.Hub.Service.Operations.{
  CreateNodeOperationRequest, PendingOperationResponse, normalize_operation_input_params,
  build_operation_template, command_of, ticket_of, new_operation, create_node_operation,
  claimed_node_operation_dispatch, claim_node_operation, dispatch,
}

normalize_operation_input_params-object :
    (value : Value) (params : Fields)
    → normalize_operation_input_params value ≡ ok params
    → value ≡ object params
unfolding normalize_operation_input_params
normalize_operation_input_params-object null params h = absurd (cc h)
normalize_operation_input_params-object (bool b) params h = absurd (cc h)
normalize_operation_input_params-object (number n) params h = absurd (cc h)
normalize_operation_input_params-object (string s) params h = absurd (cc h)
normalize_operation_input_params-object (array vs) params h = absurd (cc h)
normalize_operation_input_params-object (object fields) params h = ap object (ok_inj h)

-- A ticket that has more than blanks.
abbrev pub HasTicket : Option String → Type 0
HasTicket given = (ticket : String) × (given ≡ some ticket) × (trim ticket ≢ "")

module _ (float_text : ℕ → String) where
  dispatch-command :
      (operation : NodeOperationRecord) (template : OperationTemplateRecord) (params : Fields)
      (command : String)
      → operation.input_params ≡ object params
      → command_of float_text template params ≡ ok command
      → (response : PendingOperationResponse) × (claimed_node_operation_dispatch float_text
            (record { operation = operation; template = template })
          ≡ ok response)
        × (response.rendered_command ≡ command)
        × (response.operation_id ≡ operation.operation_id)
  unfolding claimed_node_operation_dispatch command_of normalize_operation_input_params
  dispatch-command operation template params command stored renders =
      elim (Result-cases (build_operation_template template)) [
        | inl (e, broken) ↦ absurd (cc (rw (broken, command_of) at renders))
        | inr (t, built) ↦ elim (Result-cases (render_command float_text t params)) [
          | inl (e, refused) ↦ absurd (cc (rw (built, refused, command_of) at renders))
          | inr (c, shown) ↦ (
            record {
              operation_id = operation.operation_id;
              node_id = operation.node_id;
              template_id = template.template_id;
              template_name = template.name;
              operation_type = template.operation_type;
              rendered_command = c;
              timeout_seconds = t.timeout_seconds;
              run_as_user = template.run_as_user;
              created_at = operation.created_at;
            },
            rw (built, stored, shown, claimed_node_operation_dispatch) refl,
            ground (arith, rw (built, shown, command_of) at renders),
            refl,
          )
        ]
      ]

  -- What an accepted operation is made of, and that its command renders.
  create_node_operation-stored :
      (operation_id : Uuid) (now : DateTime) (node_id : Uuid) (request : CreateNodeOperationRequest)
      (requested_by : String) (operation : NodeOperationRecord) (hub after : HubState)
      → create_node_operation float_text operation_id now node_id request requested_by hub
        ≡ (ok operation, after)
      → (template : OperationTemplateRecord) × (params : Fields) × (command : String)
        × (operation_template request.template_id hub.repo ≡ some template)
        × (normalize_operation_input_params request.input_params ≡ ok params)
        × (command_of float_text template params ≡ ok command)
        × (operation
            ≡ new_operation float_text operation_id now node_id template params
                (ticket_of float_text request.approval_ticket)
                requested_by)
        × (after.repo ≡ save_node_operation operation hub.repo)
  unfolding create_node_operation
  create_node_operation-stored operation_id now node_id request requested_by operation hub after
        done =
      elim (Option-cases (find_node node_id hub.repo)) [
        | inl e ↦ absurd (cc (rw (e, create_node_operation) at done))
        | inr (node, there) ↦
            elim (Option-cases (operation_template request.template_id hub.repo)) [
              | inl e ↦ absurd (cc (rw (there, e, create_node_operation) at done))
              | inr (template, found) ↦
                  elim (Result-cases (normalize_operation_input_params request.input_params)) [
                    | inl (e, odd) ↦
                        absurd (cc (rw (there, found, odd, create_node_operation) at done))
                    | inr (params, read) ↦
                        elim (Result-cases (command_of float_text template params)) [
                          | inl (e, refused) ↦
                              absurd (
                                cc
                                  (rw (there, found, read, refused, create_node_operation) at done))
                          | inr (command, renders) ↦
                              let done' =
                                rw (there, found, read, renders, create_node_operation) at done in
                              let built = ok_inj (ap (λ r. r.0) done') in
                              (
                                template,
                                params,
                                command,
                                found,
                                read,
                                renders,
                                sym built,
                                sym (ap (λ r. r.1.repo) done')
                                    ∙ ap (λ o. save_node_operation o hub.repo) built,
                              )
                        ]
                  ]
            ]
      ]

  keep_if-insert :
      (p : NodeOperationRecord → Bool) (k : Uuid) (o : NodeOperationRecord)
      (m : Map.Map Uuid NodeOperationRecord)
      → All (λ x. p x ≡ false) (Map.values m)
      → p o ≡ true
      → keep_if p (Map.values (Map.insert k o m)) ≡ o ∷ []
  unfolding Map.insert Map.values keep_if
  keep_if-insert p k o [] none_passes passes = rw passes refl
  keep_if-insert p k o ((j, x) ∷ m) (fails, none_passes) passes = elim (Bool-cases (j == k)) [
    | inl e ↦ rw (e, passes) (ap (λ l. o ∷ l) (keep_if-none p (Map.values m) none_passes))
    | inr e ↦ rw (e, fails) (keep_if-insert p k o m none_passes passes)
  ]

  -- The only operation of a node that can be claimed is claimed next, and starts to run.
  claim_only :
      (later : DateTime) (node_id : Uuid) (operation : NodeOperationRecord)
      (template : OperationTemplateRecord) (repo : MemoryState)
      → All (λ o. is_claimable node_id o ≡ false) (Map.values repo.node_operations)
      → is_claimable node_id operation ≡ true
      → operation_template operation.template_id repo ≡ some template
      → (claim_next_node_operation later node_id (save_node_operation operation repo)).0
        ≡ some (record { operation = start later operation; template = template })
  unfolding claim_next_node_operation save_node_operation operation_template min_by least_from
  claim_only later node_id operation template repo idle ready there =
      rw
        (
          keep_if-insert (is_claimable node_id) operation.operation_id operation
              repo.node_operations idle ready,
          get-insert operation.operation_id operation.operation_id operation repo.node_operations,
          ==_refl operation.operation_id,
          there,
          claim_next_node_operation,
        )
        refl

  -- An operation that `create_node_operation` accepts, and that can be claimed, is dispatched when its
  -- node asks next, as long as no other operation of the node waits and the template is stored under its
  -- own id: the node is given the operation, with the command that the template renders for the
  -- parameters of the request.
  pub create_node_operation-dispatched :
      (operation_id : Uuid) (now : DateTime) (node_id : Uuid) (request : CreateNodeOperationRequest)
      (requested_by : String) (operation : NodeOperationRecord) (hub after : HubState)
      (later : DateTime)
      → ((t : OperationTemplateRecord)
          → operation_template request.template_id hub.repo ≡ some t
          → t.template_id ≡ request.template_id)
      → All (λ o. is_claimable node_id o ≡ false) (Map.values hub.repo.node_operations)
      → create_node_operation float_text operation_id now node_id request requested_by hub
        ≡ (ok operation, after)
      → is_claimable node_id operation ≡ true
      → (template : OperationTemplateRecord) × (params : Fields)
        × (response : PendingOperationResponse) × (operation_template request.template_id hub.repo
            ≡ some template)
        × (request.input_params ≡ object params)
        × (command_of float_text template params ≡ ok response.rendered_command)
        × (response.operation_id ≡ operation_id)
        × ((claim_node_operation float_text later node_id after).0 ≡ ok (some response))
  unfolding claim_node_operation
  create_node_operation-dispatched operation_id now node_id request requested_by operation hub after
        later own idle done ready =
      let (template, params, command, found, read, renders, stored, saved) =
        create_node_operation-stored operation_id now node_id request requested_by operation hub
          after done in
      let (response, sent, shown, id) =
        dispatch-command (start later operation) template params command
          (ap (λ (o : NodeOperationRecord). o.input_params) stored) renders in
      let named : operation.template_id ≡ request.template_id =
        ap (λ (o : NodeOperationRecord). o.template_id) stored ∙ own template found in
      let claimed =
        claim_only later node_id operation template hub.repo idle ready (rw named found) in
      (
        template,
        params,
        response,
        found,
        normalize_operation_input_params-object request.input_params params read,
        renders ∙ ap ok (sym shown),
        id ∙ ap (λ (o : NodeOperationRecord). o.operation_id) stored,
        ap (λ repo. dispatch float_text (claim_next_node_operation later node_id repo).0) saved
            ∙ ap (dispatch float_text) claimed
            ∙ ap (λ r. and_ok r (λ p. ok (some p))) sent,
      )

  ticket_of-HasTicket :
      (given : Option String) → (ticket_of float_text given ≢ none) ↔ HasTicket given
  ticket_of-HasTicket none = (λ h. absurd (h refl), λ (t, e, _). absurd (cc e))
  ticket_of-HasTicket (some ticket) = elim (Bool-cases (trim ticket == "")) [
    | inl e ↦ (
      λ h. absurd (h (rw e refl)),
      λ (t, same, text).
          absurd (text (ap trim (sym (some_inj same)) ∙ (eq_iff (trim ticket) "").0 e)),
    )
    | inr e ↦ (
      λ h. (ticket, refl, λ blank. ground (arith, eq_iff (trim ticket) "")),
      λ h. rw e (λ p. cc p),
    )
  ]

  new_operation-approved :
      (operation_id : Uuid) (now : DateTime) (node_id : Uuid) (template : OperationTemplateRecord)
      (params : Fields) (ticket : Option String) (requested_by : String)
      → let made =
          new_operation float_text operation_id now node_id template params ticket requested_by in
        (made.exec_status ≡ "approved") ↔ ((template.approval_required ≡ false) ⊎ (ticket ≢ none))
  new_operation-approved operation_id now node_id template params none requested_by =
      elim (Bool-cases template.approval_required) [
        | inl wanted ↦ (
          λ h.
              let pending : "pending" ≡ "approved" = rw (wanted) at h in
              absurd (cc ((eq_iff "pending" "approved").1 pending)),
          λ k.
              absurd
                (elim k [ inl free ↦ ground (arith, wanted, free) | inr ticket ↦ ticket refl ]),
        )
        | inr free ↦ (λ h. inl free, λ k. rw (free) (ground arith))
      ]
  new_operation-approved operation_id now node_id template params (some ticket) requested_by =
      (λ h. inr (λ p. cc p), λ k. refl)

  is_claimable_iff :
      (node_id : Uuid) (operation : NodeOperationRecord)
      → operation.node_id ≡ node_id
      → (is_claimable node_id operation ≡ true) ↔ (operation.exec_status ≡ "approved")
  is_claimable_iff node_id operation own = (
    λ h. ground (arith, eq_iff operation.exec_status "approved"),
    λ k.
        ground
          (arith, eq_iff operation.exec_status "approved", nat_beq_iff operation.node_id node_id),
  )

  -- An accepted operation is stored, for the node of the request, and can be claimed by it at once
  -- exactly where its template wants no approval, or where the request has a ticket with more than
  -- blanks.
  pub create_node_operation-claimable :
      (operation_id : Uuid) (now : DateTime) (node_id : Uuid) (request : CreateNodeOperationRequest)
      (requested_by : String) (operation : NodeOperationRecord) (hub after : HubState)
      → create_node_operation float_text operation_id now node_id request requested_by hub
        ≡ (ok operation, after)
      → (template : OperationTemplateRecord) × (operation_template request.template_id hub.repo
          ≡ some template)
        × (node_operation operation_id after.repo ≡ some operation)
        × (operation.node_id ≡ node_id)
        × ((operation.exec_status ≡ "approved")
            ↔ ((template.approval_required ≡ false) ⊎ HasTicket request.approval_ticket))
        × ((is_claimable node_id operation ≡ true) ↔ (operation.exec_status ≡ "approved"))
  unfolding node_operation save_node_operation
  create_node_operation-claimable operation_id now node_id request requested_by operation hub after
        done =
      let (template, params, command, found, read, renders, stored, saved) =
        create_node_operation-stored operation_id now node_id request requested_by operation hub
          after done in
      let (given, taken) = ticket_of-HasTicket request.approval_ticket in
      let (wanted, met) =
        new_operation-approved operation_id now node_id template params
          (ticket_of float_text request.approval_ticket) requested_by in
      let status = ap (λ (o : NodeOperationRecord). o.exec_status) stored in
      let own : operation.node_id ≡ node_id = ap (λ (o : NodeOperationRecord). o.node_id) stored in
      let id : operation.operation_id ≡ operation_id =
        ap (λ (o : NodeOperationRecord). o.operation_id) stored in
      (
        template,
        found,
        rw (saved, ← id)
            (get-insert operation.operation_id operation.operation_id operation
                hub.repo.node_operations
              ∙ rw (==_refl operation.operation_id) refl),
        own,
        (
          λ h. elim (wanted (sym status ∙ h)) [
            | inl free ↦ inl free
            | inr ticket ↦ inr (given ticket)
          ],
          λ k. status ∙ met (elim k [ inl free ↦ inl free | inr ticket ↦ inr (taken ticket) ]),
        ),
        is_claimable_iff node_id operation own,
      )
