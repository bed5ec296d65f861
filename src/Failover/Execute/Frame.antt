-- ===== src/Failover/Execute/Frame.antt =====
-- The statements of a switch that leave the events and the bindings alone.
use pingora_mesh.Base.{
  ℕ, ◌+◌, ◌≡◌, ◌∙◌, refl, ap, String, not, Option, none, some, List, [], ◌∷◌, map, is_empty, inl,
  inr, arith, Result, ok, err, if◌then◌else◌, Bool-cases, Option-cases, map_err, Preorder, Keeps,
  lift-Keeps, bind-Keeps, lift, ◌>>=◌,
}
use pingora_mesh.Base.Text.{◌<>◌}
use pingora_mesh.Json.{Value, get, as_array, and_then}
use pingora_mesh.Domain.{Uuid, DateTime}
use pingora_mesh.ReleasePlanner.{build_release_version}
use pingora_mesh.ConfigCompiler.{compile_site_bundle}
use pingora_mesh.DnsProvider.{DnsRecordChange, Provider, cloudflare, noop, build_provider}
use pingora_mesh.Failover.Snapshot.{SiteSnapshot, SiteBindingSnapshot, PolicySnapshot}
use pingora_mesh.Failover.Bindings.{select_next_policy_standby}
use pingora_mesh.Failover.Dns.{DnsFailoverPlan}
use pingora_mesh.Failover.Operations.{
  PostSwitchOperationSpec, LoadedOperationTemplate, parse_post_switch_operation,
}
use pingora_mesh.Failover.Tables.{Tables}
use pingora_mesh.Failover.Database.{World, Act, rest, query, execute, send, with_context, for_each}
use pingora_mesh.Failover.Load.{load_site_certificates}
use pingora_mesh.Failover.Apply.{
  DnsRecordSnapshot, load_dns_record_snapshot, upsert_dns_record_snapshot, insert_dns_change_log,
  provider_config_from_dns_zone, change_record, change_message, apply_dns_failover,
}
use pingora_mesh.Failover.Execute.{
  Library, FailoverDraw, advance_failover_policy, insert_operation, enqueue_with, enqueue_item,
  enqueue_items, enqueue_post_switch_operations, release_statements, apply_plan, insert_status,
  no_targets, site_spec, target_of,
}

pub record Untouched (world after : World) : Type 0 where
  pub events : after.tables.failover_events ≡ world.tables.failover_events
  pub bindings : after.tables.site_node_bindings ≡ world.tables.site_node_bindings
  -- Where no step is to fail, none is to fail later.
  pub calm : world.faults ≡ [] → after.faults ≡ []

pub Untouched-order : Preorder Untouched
Untouched-order = record {
  same = λ world. record { events = refl; bindings = refl; calm = λ c. c };
  after = λ world middle last h k. record {
    events = k.events ∙ h.events;
    bindings = k.bindings ∙ h.bindings;
    calm = λ c. k.calm (h.calm c);
  };
}

pub record IsApart (f : Tables → Tables) : Type 0 where
  pub events : (tables : Tables) → (f tables).failover_events ≡ tables.failover_events
  pub bindings : (tables : Tables) → (f tables).site_node_bindings ≡ tables.site_node_bindings

module _ {A : Type 0} where
  pub query-Untouched : (f : Tables → A) → Keeps Untouched (query f)
  unfolding Keeps query
  query-Untouched f world = record { events = refl; bindings = refl; calm = λ c. ap rest c }

  pub lift-Untouched : (r : Result String A) → Keeps Untouched (lift {S = World} r)
  lift-Untouched r = lift-Keeps Untouched Untouched-order r

  with_context-Untouched :
      (message : String) (act : Act A)
      → Keeps Untouched act
      → Keeps Untouched (with_context message act)
  unfolding Keeps with_context
  with_context-Untouched message act h world = h world

pub bind-Untouched :
    {A B : Type 0} (m : Act A) (f : A → Act B)
    → Keeps Untouched m
    → ((a : A) → Keeps Untouched (f a))
    → Keeps Untouched (m >>= f)
bind-Untouched m f h k = bind-Keeps Untouched Untouched-order m f h k

execute-Untouched : (f : Tables → Tables) → IsApart f → Keeps Untouched (execute f)
unfolding Keeps execute
execute-Untouched f h world = record {
  events = ground (arith, h.events world.tables);
  bindings = ground (arith, h.bindings world.tables);
  calm = λ c. ground (arith, ap rest c);
}

send-Untouched : (change : DnsRecordChange) → Keeps Untouched (send change)
unfolding Keeps send
send-Untouched change world = record {
  events = ground arith;
  bindings = ground arith;
  calm = λ c. ground (arith, ap rest c);
}

for_each-Untouched :
    {A : Type 0} (body : A → Act (Unit {0})) (as' : List A)
    → ((a : A) → Keeps Untouched (body a))
    → Keeps Untouched (for_each body as')
unfolding for_each
for_each-Untouched body [] h = lift-Untouched (ok tt)
for_each-Untouched body (a ∷ later) h =
    bind-Untouched _ _ (h a) (λ _. for_each-Untouched body later h)

change_record-Untouched :
    (provider : Provider) (change : DnsRecordChange)
    → Keeps Untouched (change_record provider change)
change_record-Untouched noop change = lift-Untouched (ok tt)
change_record-Untouched (cloudflare config) change = send-Untouched change

upsert_dns_record_snapshot-Untouched :
    (new_id : Uuid) (plan : DnsFailoverPlan) (existing : Option DnsRecordSnapshot) (now : DateTime)
    → Keeps Untouched (upsert_dns_record_snapshot new_id plan existing now)
unfolding upsert_dns_record_snapshot
upsert_dns_record_snapshot-Untouched new_id plan none now =
    bind-Untouched _ _ (execute-Untouched _ (record { events = λ t. refl; bindings = λ t. refl }))
      (λ _. lift-Untouched (ok new_id))
upsert_dns_record_snapshot-Untouched new_id plan (some existing) now =
    bind-Untouched _ _ (execute-Untouched _ (record { events = λ t. refl; bindings = λ t. refl }))
      (λ _. lift-Untouched (ok existing.record_id))

module _ (uuid_text : Uuid → String) (parse_json : String → Option Value)
    (new_id log_id : Uuid) where
  apply_dns_failover-Untouched :
      (plan : DnsFailoverPlan) (event_id : Uuid) (now : DateTime)
      → Keeps Untouched (apply_dns_failover uuid_text parse_json new_id log_id plan event_id now)
  unfolding apply_dns_failover load_dns_record_snapshot insert_dns_change_log
  apply_dns_failover-Untouched plan event_id now =
      bind-Untouched _ _ (query-Untouched _) (λ existing.
        bind-Untouched _ _ (lift-Untouched (provider_config_from_dns_zone parse_json plan.zone))
          (λ config.
            bind-Untouched _ _
              (lift-Untouched (
                map_err (λ _. "failed to build dns provider " <> plan.zone.provider_type)
                  (build_provider config)))
              (λ provider.
                bind-Untouched _ _
                  (with_context-Untouched (change_message existing plan.change)
                    (change_record provider plan.change)
                    (change_record-Untouched provider plan.change))
                  (λ _.
                    bind-Untouched _ _
                      (upsert_dns_record_snapshot-Untouched new_id plan existing now)
                      (λ record_id.
                        execute-Untouched _
                          (record { events = λ t. refl; bindings = λ t. refl }))))))

advance_failover_policy-Untouched :
    (policy : PolicySnapshot) (switched : List SiteBindingSnapshot)
    → Keeps Untouched (advance_failover_policy policy switched)
unfolding advance_failover_policy
advance_failover_policy-Untouched policy switched =
    elim (Option-cases (select_next_policy_standby switched policy.standby_node_id)) [
      | inl e ↦ rw (e, advance_failover_policy) (lift-Untouched (ok none))
      | inr (standby, e) ↦
          rw (e, advance_failover_policy)
            (bind-Untouched _ _
              (execute-Untouched _ (record { events = λ t. refl; bindings = λ t. refl }))
              (λ _. lift-Untouched (ok (some standby))))
    ]

module _ (library : Library) (draw : FailoverDraw) (policy : PolicySnapshot) (event_id : Uuid)
    (now : DateTime) where
  insert_operation-Untouched :
      (spec : PostSwitchOperationSpec) (queued : ℕ) (template : LoadedOperationTemplate)
      → Keeps Untouched (insert_operation library draw policy event_id spec template now queued)
  unfolding insert_operation
  insert_operation-Untouched spec queued template =
      bind-Untouched _ _ (execute-Untouched _ (record { events = λ t. refl; bindings = λ t. refl }))
        (λ _. lift-Untouched (ok (queued + 1)))

  enqueue_with-Untouched :
      (spec : PostSwitchOperationSpec) (queued : ℕ) (template : Option LoadedOperationTemplate)
      → Keeps Untouched (enqueue_with library draw policy event_id spec now queued template)
  unfolding Keeps insert_operation
  enqueue_with-Untouched spec queued none world = Untouched-order.same world
  enqueue_with-Untouched spec queued (some template) world =
      elim (Bool-cases template.approval_required) [
        | inl approval ↦ rw (approval) (Untouched-order.same world)
        | inr free ↦ rw (free) (insert_operation-Untouched spec queued template world)
      ]

  enqueue_item-Untouched :
      (queued : ℕ) (spec : Option PostSwitchOperationSpec)
      → Keeps Untouched (enqueue_item library draw policy event_id now queued spec)
  enqueue_item-Untouched queued none = lift-Untouched (ok queued)
  enqueue_item-Untouched queued (some spec) =
      bind-Untouched _ _ (query-Untouched _)
        (λ template. enqueue_with-Untouched spec queued template)

  enqueue_items-Untouched :
      (queued : ℕ) (listed : List Value)
      → Keeps Untouched (enqueue_items library draw policy event_id now queued listed)
  unfolding enqueue_items
  enqueue_items-Untouched queued [] = lift-Untouched (ok queued)
  enqueue_items-Untouched queued (item ∷ later) =
      bind-Untouched _ _
        (enqueue_item-Untouched queued (parse_post_switch_operation library.parsers item policy))
        (λ queued'. enqueue_items-Untouched queued' later)

  enqueue_post_switch_operations-Untouched :
      Keeps Untouched (enqueue_post_switch_operations library draw policy event_id now)
  unfolding enqueue_post_switch_operations
  enqueue_post_switch_operations-Untouched =
      elim (Option-cases
        (and_then (get "post_switch_operations" policy.precheck_policy) as_array)) [
          | inl e ↦ rw (e, enqueue_post_switch_operations) (lift-Untouched (ok 0))
          | inr (listed, e) ↦
              rw (e, enqueue_post_switch_operations) (enqueue_items-Untouched 0 listed)
        ]

  apply_plan-Untouched :
      (plan : Option DnsFailoverPlan)
      → Keeps Untouched (apply_plan library draw policy plan event_id now)
  apply_plan-Untouched none = lift-Untouched (ok tt)
  apply_plan-Untouched (some plan) =
      apply_dns_failover-Untouched library.parsers.uuid_text library.parse_json draw.record_id
        draw.log_id plan event_id now

  pub release_statements-Untouched :
      (site : SiteSnapshot) (plan : Option DnsFailoverPlan) (switched : List SiteBindingSnapshot)
      → Keeps Untouched (release_statements library draw policy site plan switched event_id now)
  unfolding release_statements load_site_certificates
  release_statements-Untouched site plan switched =
      bind-Untouched _ _ (advance_failover_policy-Untouched policy switched) (λ standby.
        bind-Untouched _ _ (query-Untouched _) (λ certificates.
          bind-Untouched _ _
            (lift-Untouched (if not (is_empty switched) then ok tt else err (no_targets site)))
            (λ _.
              let release_version =
                build_release_version library.timestamp "failover" now
                  (library.timestamp_millis now) in
              bind-Untouched _ _
                (lift-Untouched (
                  compile_site_bundle library.parsers.uuid_text draw.release_id draw.compiled_at
                    (site_spec library draw policy site) certificates
                    (map (target_of site) switched) release_version))
                (λ bundle.
                  bind-Untouched _ _
                    (execute-Untouched _ (record { events = λ t. refl; bindings = λ t. refl }))
                    (λ _.
                      bind-Untouched _ _
                        (for_each-Untouched
                          (insert_status bundle.manifest.release_id release_version) switched
                          (λ b.
                            execute-Untouched _
                              (record { events = λ t. refl; bindings = λ t. refl })))
                        (λ _.
                          bind-Untouched _ _
                            (execute-Untouched _
                              (record { events = λ t. refl; bindings = λ t. refl }))
                            (λ _. bind-Untouched _ _ (apply_plan-Untouched plan) (λ _.
                              bind-Untouched _ _
                                (execute-Untouched _
                                  (record { events = λ t. refl; bindings = λ t. refl }))
                                (λ _.
                                  bind-Untouched _ _ enqueue_post_switch_operations-Untouched
                                    (λ _. lift-Untouched (ok tt)))))))))))
