-- ===== src/Failover/Run/Laws.antt =====
-- What a cycle of the worker accounts for, and what an attempt does to the events.
use pingora_mesh.Base.{
  ℕ, suc, ◌+◌, ◌∙◌, if◌then◌else◌, ◌≡◌, refl, String, Bool, true, false, List, [], ◌∷◌, arith, inl,
  inr, length, count_if, Option-cases, Result, ok, err,
}
use pingora_mesh.Domain.{DateTime}
use pingora_mesh.Failover.Snapshot.{PolicySnapshot}
use pingora_mesh.Failover.Policy.{evaluate_policy, is_some}
use pingora_mesh.Failover.Database.{World}
use pingora_mesh.Failover.Execute.{Library, FailoverDraw}
use pingora_mesh.Failover.Run.{
  FailoverRunSummary, count_result, trigger_policy_failover, process_policy, process_policies,
  process_failover_policies,
}

abbrev outcomes : FailoverRunSummary → ℕ
outcomes summary = summary.switched + summary.skipped + summary.failed

module _ (library : Library) (draws : ℕ → FailoverDraw) (now : DateTime) (expected : ℕ) where
  abbrev is_eligible : PolicySnapshot → Bool
  is_eligible policy = is_some (evaluate_policy policy now expected)

  abbrev is_counted : Bool → ℕ
  is_counted b = if b then 1 else 0

  count_result-outcomes :
      (result : Result String Bool) (summary : FailoverRunSummary)
      → (count_result result summary).scanned ≡ summary.scanned
        × outcomes (count_result result summary) ≡ suc (outcomes summary)
        × (count_result result summary).eligible ≡ suc summary.eligible
  count_result-outcomes (ok true) summary = (refl, ground arith, ground arith)
  count_result-outcomes (ok false) summary = (refl, ground arith, ground arith)
  count_result-outcomes (err e) summary = (refl, ground arith, ground arith)

  process_policy-summary :
      (n : ℕ) (policy : PolicySnapshot) (summary : FailoverRunSummary) (world : World)
      → let after = (process_policy library draws now expected n policy summary world).0 in
        after.scanned ≡ summary.scanned
        × outcomes after ≡ suc (outcomes summary)
        × after.eligible ≡ summary.eligible + is_counted (is_eligible policy)
  unfolding process_policy
  process_policy-summary n policy summary world =
      elim (Option-cases (evaluate_policy policy now expected)) [
        | inl e ↦ rw (e, process_policy) (refl, ground arith, ground arith)
        | inr (reason, e) ↦
            let (scanned, counted, eligible) =
              count_result-outcomes
                (trigger_policy_failover library (draws n) policy now reason world).0 summary in
            rw (e, process_policy) (scanned, counted, ground (arith, eligible))
      ]

  process_policies-summary :
      (n : ℕ) (policies : List PolicySnapshot) (summary : FailoverRunSummary) (world : World)
      → let after = (process_policies library draws now expected n policies summary world).0 in
        after.scanned ≡ summary.scanned
        × outcomes after ≡ outcomes summary + length policies
        × after.eligible ≡ summary.eligible + count_if is_eligible policies
  unfolding process_policies
  process_policies-summary n [] summary world = (refl, ground arith, ground arith)
  process_policies-summary n (policy ∷ policies) summary world =
      let (summary', world') = process_policy library draws now expected n policy summary world in
      let (scanned, counted, eligible) = process_policy-summary n policy summary world in
      let (later_scanned, later_counted, later_eligible) =
        process_policies-summary (n + 1) policies summary' world' in
      (
        later_scanned ∙ scanned,
        ground (arith, later_counted, counted),
        ground (arith, later_eligible, eligible),
      )

  -- Every policy that was loaded is counted once, as switched, skipped or failed, whatever fails on
  -- the way; the eligible ones are those that `evaluate_policy` gives a reason for.
  pub process_failover_policies-accounts :
      (policies : List PolicySnapshot) (world : World)
      → let summary = (process_failover_policies library draws now expected policies world).0 in
        summary.scanned ≡ length policies
        × summary.switched + summary.skipped + summary.failed ≡ length policies
        × summary.eligible ≡ count_if is_eligible policies
  unfolding process_failover_policies
  process_failover_policies-accounts policies world =
      let (scanned, counted, eligible) =
        process_policies-summary 0 policies
          (record {
            scanned = length policies;
            eligible = 0;
            switched = 0;
            skipped = 0;
            failed = 0;
          })
          world in
      (scanned, ground (arith, counted), ground (arith, eligible))
