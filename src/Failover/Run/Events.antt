-- ===== src/Failover/Run/Events.antt =====
-- The events of a policy: at most one is open, and an attempt whose statements all run closes its own.
use pingora_mesh.Base.{
  ◌++◌, ◌≡◌, ◌⊎◌, ◌≢◌, refl, String, Bool, true, false, List, [], ◌∷◌, any, inl, inr, Result, ok,
  err, Keeps, ok_or, Bool-cases, ◌==◌, nat_eq, string_eq,
}
use pingora_mesh.Domain.{Uuid, DateTime}
use pingora_mesh.Failover.Snapshot.{PolicySnapshot}
use pingora_mesh.Failover.Tables.{EventRow}
use pingora_mesh.Failover.Database.{World, fails, query}
use pingora_mesh.Failover.Load.{snapshot_of, load_site_snapshot, load_site_bindings}
use pingora_mesh.Failover.Execute.{Library, FailoverDraw}
use pingora_mesh.Base.Text.{◌<>◌}
use pingora_mesh.Failover.Execute.Frame.{Untouched, query-Untouched, lift-Untouched, bind-Untouched}
use pingora_mesh.Failover.Run.{
  is_open_of, has_open_failover_event, switching_event, finished, trigger_policy_failover,
}

abbrev IsOther : Uuid → EventRow → Type 0
IsOther event_id event = (event.id == event_id) ≡ false

-- An event that was opened as the last one, after it is closed.
abbrev closed : Uuid → PolicySnapshot → DateTime → String → String → EventRow
closed event_id policy now reason status =
    finished event_id status now (switching_event event_id policy now reason)

module _ (library : Library) (draw : FailoverDraw) (policy : PolicySnapshot) (now : DateTime)
    (reason : String) where
  -- A policy whose last attempt is still open is left alone: nothing is written, and the answer is
  -- that it was skipped, or that the database failed.
  pub trigger_policy_failover-open :
      (world : World)
      → any (is_open_of policy.policy_id) world.tables.failover_events ≡ true
      → let (result, after) = trigger_policy_failover library draw policy now reason world in
        (after.tables ≡ world.tables) × ((result ≡ ok false) ⊎ ((e : String) × (result ≡ err e)))
  unfolding trigger_policy_failover has_open_failover_event query
  trigger_policy_failover-open world open_event = elim (Bool-cases (fails world.faults)) [
    | inl failed ↦ rw (failed, trigger_policy_failover) (refl, inr ("database error", refl))
    | inr runs ↦ rw (runs, open_event, trigger_policy_failover) (refl, inl refl)
  ]

  -- What an attempt may leave behind in the events.
  pub IsOutcome : Result String Bool → List EventRow → List EventRow → Type 0
  IsOutcome result before after =
      ((after ≡ before) × (result ≢ ok true))
      ⊎ ((result ≡ ok true)
          × (after ≡ before ++ closed draw.event_id policy now reason "switched" ∷ []))
      ⊎ ((e : String) × (result ≡ err e)
          × (after ≡ before ++ closed draw.event_id policy now reason "failed" ∷ []))

  pub load_site_snapshot-Untouched :
      Keeps Untouched (load_site_snapshot library.parsers.uuid_text policy.scope_id)
  unfolding load_site_snapshot load_site_bindings
  load_site_snapshot-Untouched = bind-Untouched _ _ (query-Untouched _) (λ found.
      bind-Untouched _ _
        (lift-Untouched
          (ok_or found ("site " <> library.parsers.uuid_text policy.scope_id <> " not found")))
        (λ row.
          bind-Untouched _ _ (query-Untouched _)
            (λ bindings. lift-Untouched (ok (snapshot_of row bindings)))))
