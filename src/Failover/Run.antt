-- ===== src/Failover/Run.antt =====
-- The cycle of the failover worker: `process_failover_policies` and `trigger_policy_failover` of
-- apps/failover-worker/src/main.rs, with the event that each attempt leaves.
pub mod Laws
pub mod Events
pub mod Open
use pingora_mesh.Base.{
  ℕ, ◌+◌, String, Bool, true, false, ◌&&◌, ◌||◌, Option, none, some, List, [], ◌∷◌, ◌++◌, map, any,
  length, ◌==◌, nat_eq, string_eq, Result, ok, err, ◌>>=◌, ◌>>◌, lift, pure, if◌then◌else◌,
}
use pingora_mesh.Domain.{Uuid, DateTime}
use pingora_mesh.Failover.Snapshot.{SiteSnapshot, PolicySnapshot}
use pingora_mesh.Failover.Bindings.{current_primary_node_id}
use pingora_mesh.Failover.Policy.{evaluate_policy}
use pingora_mesh.Failover.Tables.{Tables, EventRow}
use pingora_mesh.Failover.Database.{World, Act, query, execute}
use pingora_mesh.Failover.Load.{load_site_snapshot}
use pingora_mesh.Failover.Execute.{Library, FailoverDraw, execute_site_failover}

abbrev pub is_finished : EventRow → Bool
is_finished event = elim event.finished_at [ none ↦ false | some t ↦ true ]

abbrev pub is_open_status : String → Bool
is_open_status status = status == "detected" || status == "prechecking" || status == "switching"

abbrev pub is_open_of : Uuid → EventRow → Bool
is_open_of policy_id event =
    event.policy_id == policy_id
    && elim event.finished_at [ none ↦ true | some t ↦ false ]
    && is_open_status event.event_status

unfoldable pub has_open_failover_event : Uuid → Act Bool
has_open_failover_event policy_id =
    query (λ tables. any (is_open_of policy_id) tables.failover_events)

abbrev pub switching_event : Uuid → PolicySnapshot → DateTime → String → EventRow
switching_event event_id policy now reason = record {
  id = event_id;
  policy_id = policy.policy_id;
  site_id = policy.scope_id;
  source_node_id = policy.primary_node_id;
  target_node_id = policy.standby_node_id;
  trigger_reason = reason;
  event_status = "switching";
  started_at = now;
  finished_at = none;
}

-- The id is drawn.
unfoldable pub create_failover_event : Uuid → PolicySnapshot → DateTime → String → Act Uuid
create_failover_event event_id policy now reason = do
  execute (λ tables. record tables {
    failover_events = tables.failover_events ++ switching_event event_id policy now reason ∷ [];
  })
  pure event_id

abbrev pub finished : Uuid → String → DateTime → EventRow → EventRow
finished event_id status now event =
    if event.id == event_id
    then record event { event_status = status; finished_at = some now }
    else event

unfoldable pub finish_failover_event : Uuid → String → DateTime → Act (Unit {0})
finish_failover_event event_id status now = execute (λ tables. record tables {
  failover_events = map (finished event_id status now) tables.failover_events;
})

abbrev pub is_node : Option Uuid → Uuid → Bool
is_node none id = false
is_node (some node) id = node == id

-- What follows the switch: the event is closed, and an error is passed on after that.
abbrev pub close_event : Uuid → DateTime → Result String (Unit {0}) → Act Bool
close_event event_id now (ok _) = do finish_failover_event event_id "switched" now; pure true
close_event event_id now (err e) = do finish_failover_event event_id "failed" now; lift (err e)

module _ (library : Library) where
  -- `match execute_site_failover(..).await`
  abbrev pub attempt : FailoverDraw → PolicySnapshot → SiteSnapshot → Uuid → DateTime → Act Bool
  attempt draw policy site event_id now world =
      let (result, after) = execute_site_failover library draw policy site event_id now world in
      close_event event_id now result after

  -- Unless the standby is the primary already.
  abbrev pub start_switch :
      FailoverDraw → PolicySnapshot → DateTime → String → SiteSnapshot → Act Bool
  start_switch draw policy now reason site world =
      if is_node (current_primary_node_id site.bindings) policy.standby_node_id
      then pure false world
      else (do
        event_id ← create_failover_event draw.event_id policy now reason
        attempt draw policy site event_id now)
          world

  abbrev pub switch_unless_open :
      FailoverDraw → PolicySnapshot → DateTime → String → Bool → Act Bool
  switch_unless_open draw policy now reason true = pure false
  switch_unless_open draw policy now reason false = do
    site ← load_site_snapshot library.parsers.uuid_text policy.scope_id
    start_switch draw policy now reason site

  unfoldable pub trigger_policy_failover :
      FailoverDraw → PolicySnapshot → DateTime → String → Act Bool
  trigger_policy_failover draw policy now reason = do
    open_event ← has_open_failover_event policy.policy_id
    switch_unless_open draw policy now reason open_event

pub record FailoverRunSummary : Type 0 where
  pub scanned : ℕ
  pub eligible : ℕ
  pub switched : ℕ
  pub skipped : ℕ
  pub failed : ℕ

abbrev pub skip : FailoverRunSummary → FailoverRunSummary
skip summary = record summary { skipped = summary.skipped + 1 }

abbrev pub count_result : Result String Bool → FailoverRunSummary → FailoverRunSummary
count_result (ok true) summary = record summary {
  eligible = summary.eligible + 1;
  switched = summary.switched + 1;
}
count_result (ok false) summary = record summary {
  eligible = summary.eligible + 1;
  skipped = summary.skipped + 1;
}
count_result (err e) summary = record summary {
  eligible = summary.eligible + 1;
  failed = summary.failed + 1;
}

module _ (library : Library) (draws : ℕ → FailoverDraw) (now : DateTime) (expected : ℕ) where
  -- One round of the loop; the n-th policy draws the n-th ids.
  unfoldable pub process_policy :
      ℕ → PolicySnapshot → FailoverRunSummary → World → FailoverRunSummary × World
  process_policy n policy summary world = elim (evaluate_policy policy now expected) [
    | none ↦ (skip summary, world)
    | some reason ↦
        let (result, after) = trigger_policy_failover library (draws n) policy now reason world in
        (count_result result summary, after)
  ]

  unfoldable pub process_policies :
      ℕ → List PolicySnapshot → FailoverRunSummary → World → FailoverRunSummary × World
  process_policies n [] summary world = (summary, world)
  process_policies n (policy ∷ policies) summary world =
      let (summary', world') = process_policy n policy summary world in
      process_policies (n + 1) policies summary' world'

  -- After `load_active_policies`, whose result is an argument.
  unfoldable pub process_failover_policies :
      List PolicySnapshot → World → FailoverRunSummary × World
  process_failover_policies policies world =
      process_policies 0 policies
        (record { scanned = length policies; eligible = 0; switched = 0; skipped = 0; failed = 0 })
        world
