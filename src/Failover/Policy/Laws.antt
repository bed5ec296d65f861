-- ===== src/Failover/Policy/Laws.antt =====
-- What the evaluation of a policy promises.
use pingora_mesh.Base.{
  ℕ, ◌≤◌, max, ◌≡◌, ◌↔◌, ◌⊎◌, refl, ap, sym, ◌∙◌, some_inj, String, true, false, Option, none, some,
  arith, string_eq, eq_iff,
}
use pingora_mesh.Domain.{DateTime, offline}
use pingora_mesh.Lifecycle.{HeartbeatPolicy, missed_heartbeats, evaluate_status, u32_max}
use pingora_mesh.Lifecycle.Laws.{missed_heartbeats_mono}
use pingora_mesh.Failover.Snapshot.{PolicySnapshot}
use pingora_mesh.Failover.Policy.{
  policy_bool, is_automatic, is_prewarmed, primary_missed, degraded_reason, evaluate_policy,
}

-- What must hold before the primary is looked at.
pub record Prechecks (policy : PolicySnapshot) : Type 0 where
  pub site_scope : policy.scope_type ≡ "site"
  pub automatic : (policy.trigger_mode ≡ "semi_auto") ⊎ (policy.trigger_mode ≡ "auto")
  pub standby_online :
      (policy_bool policy.precheck_policy "require_standby_online" true ≡ false)
      ⊎ (policy.standby_status ≡ "online")
  pub prewarmed :
      (policy_bool policy.precheck_policy "require_config_prewarm" false ≡ false)
      ⊎ ((v : String) × (policy.standby_active_config_version ≡ some v)
          × (policy.primary_active_config_version ≡ some v))

-- The primary is offline, or has missed at least the threshold, which counts as 1 when it is 0.
abbrev pub Degraded : PolicySnapshot → DateTime → ℕ → Type 0
Degraded policy now expected =
    (policy.primary_status ≡ "offline")
    ⊎ (max policy.failure_threshold 1 ≤ primary_missed policy now expected)

prewarmed_iff :
    (a b : Option String) → (is_prewarmed a b ≡ true) ↔ ((v : String) × (a ≡ some v) × (b ≡ some v))
unfolding is_prewarmed
prewarmed_iff none b = (λ h. cc h, λ h. cc (h.1))
prewarmed_iff (some v) none = (λ h. cc h, λ h. cc (h.2))
prewarmed_iff (some v) (some w) = (
  λ h. (v, refl, ap some (sym ((eq_iff v w).0 h))),
  λ h. (eq_iff v w).1 (some_inj (h.1 ∙ sym h.2)),
)

automatic_iff :
    (mode : String) → (is_automatic mode ≡ true) ↔ ((mode ≡ "semi_auto") ⊎ (mode ≡ "auto"))
unfolding is_automatic
automatic_iff mode = (
  λ h. ground (arith, eq_iff mode "semi_auto", eq_iff mode "auto"),
  λ h. ground (arith, eq_iff mode "semi_auto", eq_iff mode "auto"),
)

module _ (policy : PolicySnapshot) (now expected : ℕ) where
  fires :
      Prechecks policy
      → Degraded policy now expected
      → evaluate_policy policy now expected
        ≡ some (degraded_reason policy (primary_missed policy now expected))
  unfolding evaluate_policy
  fires checks degraded = ground (
    arith,
    eq_iff policy.scope_type "site",
    automatic_iff policy.trigger_mode,
    eq_iff policy.standby_status "online",
    prewarmed_iff policy.standby_active_config_version policy.primary_active_config_version,
    eq_iff policy.primary_status "offline",
  )

  fired :
      (reason : String)
      → evaluate_policy policy now expected ≡ some reason
      → Prechecks policy × Degraded policy now expected
  unfolding evaluate_policy
  fired reason h = ground (
    arith,
    eq_iff policy.scope_type "site",
    automatic_iff policy.trigger_mode,
    eq_iff policy.standby_status "online",
    prewarmed_iff policy.standby_active_config_version policy.primary_active_config_version,
    eq_iff policy.primary_status "offline",
  )

-- A policy fires with its reason, which names the missed heartbeats, exactly when it is an
-- automatic site policy whose standby passes the checks that the policy asks for, and its primary
-- is degraded.
pub evaluate_policy_iff :
    (policy : PolicySnapshot) (now expected : ℕ)
    → (evaluate_policy policy now expected
        ≡ some (degraded_reason policy (primary_missed policy now expected)))
      ↔ (Prechecks policy × Degraded policy now expected)
evaluate_policy_iff policy now expected =
    (λ h. fired policy now expected _ h, λ h. fires policy now expected h.0 h.1)

primary_missed_mono :
    (policy : PolicySnapshot) (now later expected : ℕ)
    → now ≤ later
    → primary_missed policy now expected ≤ primary_missed policy later expected
unfolding primary_missed
primary_missed_mono policy now later expected h = go policy.primary_last_seen_at
  where
    go :
        (o : Option DateTime)
        → elim o [ none ↦ u32_max | some seen ↦ missed_heartbeats now seen expected ]
          ≤ elim o [ none ↦ u32_max | some seen ↦ missed_heartbeats later seen expected ]
    go none = omega arith
    go (some seen) = missed_heartbeats_mono now later seen expected h

-- While the rows that a policy is read from do not change, a policy that fires at one instant
-- fires at every later instant too.
pub evaluate_policy-stays :
    (policy : PolicySnapshot) (now later expected : ℕ) (reason : String)
    → now ≤ later
    → evaluate_policy policy now expected ≡ some reason
    → evaluate_policy policy later expected
      ≡ some (degraded_reason policy (primary_missed policy later expected))
evaluate_policy-stays policy now later expected reason h e =
    let (checks, degraded) = fired policy now expected reason e in
    fires policy later expected checks
      (ground (arith, primary_missed_mono policy now later expected))

-- The workers agree: if the status worker, reading the same heartbeat with the same interval,
-- finds the primary offline, then a policy that passes its checks fires, provided its threshold,
-- counted as 1 when it is 0, is not above the status worker's.
pub offline_status_fires :
    (policy : PolicySnapshot) (heartbeats : HeartbeatPolicy) (now seen expected : ℕ)
    → Prechecks policy
    → policy.primary_last_seen_at ≡ some seen
    → evaluate_status (missed_heartbeats now seen expected) heartbeats ≡ offline
    → max policy.failure_threshold 1 ≤ heartbeats.offline_after_missed
    → evaluate_policy policy now expected
      ≡ some (degraded_reason policy (missed_heartbeats now seen expected))
unfolding evaluate_status
offline_status_fires policy heartbeats now seen expected checks row status h =
    let missed : primary_missed policy now expected ≡ missed_heartbeats now seen expected =
      unfold primary_missed in rw row in
    rw (← missed) (fires policy now expected checks (ground arith))
