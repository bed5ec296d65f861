-- ===== src/Failover/Run/Open.antt =====
-- How many open events a policy has after a cycle, whatever fails.
use pingora_mesh.Base.{
  ℕ, ◌+◌, ◌≤◌, ◌≡◌, refl, if◌then◌else◌, String, Bool, true, false, List, [], ◌∷◌, map, any, arith,
  inl, inr, Result, ok, err, subst, Preorder, Keeps, bind-Keeps, lift-Keeps, Result-cases,
  Bool-cases, count_if, count_if-append, Option-cases, ◌==◌, nat_beq_iff, nat_eq, string_eq,
}
use pingora_mesh.Domain.{Uuid, DateTime}
use pingora_mesh.Failover.Snapshot.{SiteSnapshot, PolicySnapshot}
use pingora_mesh.Failover.Bindings.{current_primary_node_id}
use pingora_mesh.Failover.Policy.{evaluate_policy}
use pingora_mesh.Failover.Tables.{EventRow}
use pingora_mesh.Failover.Database.{World, advance, fails, query, execute}
use pingora_mesh.Failover.Load.{load_site_snapshot}
use pingora_mesh.Failover.Execute.{Library, FailoverDraw, execute_site_failover}
use pingora_mesh.Failover.Execute.Laws.{execute_site_failover-events}
use pingora_mesh.Failover.Run.{
  is_open_of, has_open_failover_event, switching_event, create_failover_event, finished,
  finish_failover_event, close_event, attempt, start_switch, switch_unless_open,
  trigger_policy_failover, is_node, FailoverRunSummary, process_policy, process_policies,
}
use pingora_mesh.Failover.Run.Events.{load_site_snapshot-Untouched}

abbrev open_events : Uuid → World → ℕ
open_events q world = count_if (is_open_of q) world.tables.failover_events

any-count_if :
    (p : EventRow → Bool) (events : List EventRow) → any p events ≡ false → count_if p events ≡ 0
unfolding any
any-count_if p [] e = refl
any-count_if p (event ∷ events) e = ground (arith, any-count_if p events)

map-finished-open :
    (q event_id : Uuid) (status : String) (now : DateTime) (events : List EventRow)
    → count_if (is_open_of q) (map (finished event_id status now) events)
      ≤ count_if (is_open_of q) events
map-finished-open q event_id status now [] = ground arith
map-finished-open q event_id status now (event ∷ events) =
    ground (arith, map-finished-open q event_id status now events)

module _ (q : Uuid) where
  finish_failover_event-open :
      (event_id : Uuid) (status : String) (now : DateTime) (world : World)
      → open_events q (finish_failover_event event_id status now world).1 ≤ open_events q world
  unfolding finish_failover_event execute
  finish_failover_event-open event_id status now world =
      ground (arith, map-finished-open q event_id status now world.tables.failover_events)

  abbrev NoneOpened : World → World → Type 0
  NoneOpened world after = open_events q after ≤ open_events q world

  NoneOpened-order : Preorder NoneOpened
  NoneOpened-order = record {
    same = λ world. ground arith;
    after = λ world middle last h k. ground arith;
  }

  finish_failover_event-Keeps :
      (event_id : Uuid) (status : String) (now : DateTime)
      → Keeps NoneOpened (finish_failover_event event_id status now)
  unfolding Keeps
  finish_failover_event-Keeps event_id status now world =
      finish_failover_event-open event_id status now world

  close_event-Keeps :
      (event_id : Uuid) (now : DateTime) (result : Result String (Unit {0}))
      → Keeps NoneOpened (close_event event_id now result)
  close_event-Keeps event_id now (ok u) =
      bind-Keeps NoneOpened NoneOpened-order _ _
        (finish_failover_event-Keeps event_id "switched" now)
        (λ _. lift-Keeps NoneOpened NoneOpened-order (ok true))
  close_event-Keeps event_id now (err e) =
      bind-Keeps NoneOpened NoneOpened-order _ _ (finish_failover_event-Keeps event_id "failed" now)
        (λ _. lift-Keeps NoneOpened NoneOpened-order (err e))

  close_event-open :
      (event_id : Uuid) (now : DateTime) (result : Result String (Unit {0})) (world : World)
      → open_events q (close_event event_id now result world).1 ≤ open_events q world
  unfolding Keeps
  close_event-open event_id now result world = close_event-Keeps event_id now result world

  module _ (library : Library) (draw : FailoverDraw) (policy : PolicySnapshot)
      (now : DateTime) where
    attempt-open :
        (event_id : Uuid) (site : SiteSnapshot) (world : World)
        → open_events q (attempt library draw policy site event_id now world).1
          ≤ open_events q world
    attempt-open event_id site world =
        let (result, after) = execute_site_failover library draw policy site event_id now world in
        let (same, _) = execute_site_failover-events library draw policy site event_id now world in
        subst
          (λ events.
            open_events q (close_event event_id now result after).1
            ≤ count_if (is_open_of q) events)
          same (close_event-open event_id now result after)

    create_failover_event-open :
        (reason : String) (world : World)
        → open_events q (create_failover_event draw.event_id policy now reason world).1
          ≤ open_events q world + (if policy.policy_id == q then 1 else 0)
    unfolding create_failover_event execute
    create_failover_event-open reason world = ground (
      arith,
      count_if-append (is_open_of q) world.tables.failover_events
          (switching_event draw.event_id policy now reason ∷ []),
    )

    start_switch-open :
        (reason : String) (site : SiteSnapshot) (world : World)
        → open_events q (start_switch library draw policy now reason site world).1
          ≤ open_events q world + (if policy.policy_id == q then 1 else 0)
    start_switch-open reason site world =
        let created = create_failover_event draw.event_id policy now reason world in
        elim (Bool-cases (is_node (current_primary_node_id site.bindings) policy.standby_node_id)) [
          | inl already ↦ rw (already) (ground arith)
          | inr other ↦ elim (Result-cases created.0) [
            | inl (e, refused) ↦ rw (other, refused) (create_failover_event-open reason world)
            | inr (event_id, done) ↦
                rw (other, done)
                  (ground (
                    arith,
                    attempt-open event_id site created.1,
                    create_failover_event-open reason world,
                  ))
          ]
        ]

    switch_unless_open-open :
        (reason : String) (world : World)
        → open_events q (switch_unless_open library draw policy now reason false world).1
          ≤ open_events q world + (if policy.policy_id == q then 1 else 0)
    unfolding Keeps
    switch_unless_open-open reason world =
        let loaded = load_site_snapshot-Untouched library draw policy now reason world in
        let snapshot = load_site_snapshot library.parsers.uuid_text policy.scope_id world in
        elim (Result-cases snapshot.0) [
          | inl (e, failed) ↦ rw (failed, loaded.events) (ground arith)
          | inr (site, done) ↦ rw (done) (
              subst
                (λ events.
                  open_events q (start_switch library draw policy now reason site snapshot.1).1
                  ≤ count_if (is_open_of q) events + (if policy.policy_id == q then 1 else 0))
                loaded.events (start_switch-open reason site snapshot.1))
        ]

    switch_unless_open-one_open :
        (reason : String) (world : World)
        → open_events q world ≤ 1
        → any (is_open_of policy.policy_id) world.tables.failover_events ≡ false
        → open_events q (switch_unless_open library draw policy now reason false world).1 ≤ 1
    switch_unless_open-one_open reason world one free =
        let bound = switch_unless_open-open reason world in
        elim (Bool-cases (policy.policy_id == q)) [
          | inl same ↦
              let zero_open =
                any-count_if (is_open_of policy.policy_id) world.tables.failover_events free in
              let bound' = rw (same) at bound in
              ground (
                arith,
                bound',
                subst (λ id. count_if (is_open_of id) world.tables.failover_events ≡ 0)
                    ((nat_beq_iff policy.policy_id q).0 same) zero_open,
              )
          | inr other ↦ let bound' = rw (other) at bound in ground (arith, bound')
        ]

    -- An attempt never leaves a policy with two open events, whichever policy it is for and
    -- whatever fails.
    trigger_policy_failover-one_open :
        (reason : String) (world : World)
        → open_events q world ≤ 1
        → open_events q (trigger_policy_failover library draw policy now reason world).1 ≤ 1
    unfolding trigger_policy_failover has_open_failover_event query
    trigger_policy_failover-one_open reason world one = elim (Bool-cases (fails world.faults)) [
      | inl failed ↦ rw (failed, trigger_policy_failover) one
      | inr runs ↦
          elim (Bool-cases (any (is_open_of policy.policy_id) world.tables.failover_events)) [
            | inl busy ↦ rw (runs, busy, trigger_policy_failover) one
            | inr free ↦
                rw (runs, free, trigger_policy_failover)
                  (switch_unless_open-one_open reason (advance world) one free)
          ]
    ]

module _ (library : Library) (draws : ℕ → FailoverDraw) (now : DateTime) (expected : ℕ)
    (q : Uuid) where
  process_policy-one_open :
      (n : ℕ) (policy : PolicySnapshot) (summary : FailoverRunSummary) (world : World)
      → open_events q world ≤ 1
      → open_events q (process_policy library draws now expected n policy summary world).1 ≤ 1
  unfolding process_policy
  process_policy-one_open n policy summary world one =
      elim (Option-cases (evaluate_policy policy now expected)) [
        | inl e ↦ rw (e, process_policy) one
        | inr (reason, e) ↦
            rw (e, process_policy)
              (trigger_policy_failover-one_open q library (draws n) policy now reason world one)
      ]

  -- A policy that has at most one open event before a cycle over any policies has at most one after
  -- it, whatever fails on the way.
  pub process_policies-one_open :
      (n : ℕ) (policies : List PolicySnapshot) (summary : FailoverRunSummary) (world : World)
      → open_events q world ≤ 1
      → open_events q (process_policies library draws now expected n policies summary world).1 ≤ 1
  unfolding process_policies
  process_policies-one_open n [] summary world one = one
  process_policies-one_open n (policy ∷ policies) summary world one =
      let (summary', world') = process_policy library draws now expected n policy summary world in
      process_policies-one_open (n + 1) policies summary' world'
        (process_policy-one_open n policy summary world one)
