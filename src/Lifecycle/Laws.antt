-- ===== src/Lifecycle/Laws.antt =====
-- What the status worker promises: a silent node only degrades, a run that succeeds accounts for every
-- row and settles it, and another run after that changes nothing.
use native.Mathlib.Nat.{le-div_iff_mul-le}
use pingora_mesh.Base.{
  ℕ, ◌+◌, ◌*◌, ◌-◌, ◌/◌, ◌≤◌, max, ◌≡◌, refl, ◌↔◌, none, some, List, [], ◌∷◌, arith, ◌==◌, subst,
  leb, Result, ok, err, inl, inr, Result-cases, Option-cases, Bool-cases, Bool, true, false, ◌⊎◌,
  String, ◌++◌, string_eq, length, eq_iff, map, sym, ap, ◌∙◌, if◌then◌else◌,
}
use pingora_mesh.Domain.{Uuid, DateTime, NodeStatus, pending, online, suspect, offline, maintenance}
use pingora_mesh.Lifecycle.{
  HeartbeatPolicy, no_summary, evaluate_status, nanos, u32_max, missed_heartbeats, NodeSnapshot,
  node_status_name, desired_status_for_snapshot, ReconcileSummary, reconcile_one, reconcile_rows,
  reconcile_node_statuses, RunFaults, update_error, count_status,
}

-- How far a status is from healthy.
abbrev pub severity : NodeStatus → ℕ
severity online = 0
severity suspect = 1
severity offline = 2
severity pending = 0
severity maintenance = 0

pub evaluate_status_mono :
    (m n : ℕ) (policy : HeartbeatPolicy)
    → m ≤ n
    → severity (evaluate_status m policy) ≤ severity (evaluate_status n policy)
unfolding evaluate_status
evaluate_status_mono m n policy h = ground arith

div_mono : (a b d : ℕ) → a ≤ b → a / d ≤ b / d
div_mono a b d h = grind arith

pub missed_heartbeats_mono :
    (now later seen expected : ℕ)
    → now ≤ later
    → missed_heartbeats now seen expected ≤ missed_heartbeats later seen expected
unfolding missed_heartbeats
missed_heartbeats_mono now later seen expected h =
    omega (
      arith,
      div_mono ((now - seen) / nanos) ((later - seen) / nanos) (max expected 1) (omega arith),
    )

-- A node is counted to have missed `m` heartbeats, for `m` within a u32, exactly when `m` whole
-- intervals have passed since it was last seen.
pub missed_heartbeats_exact :
    (now seen expected m : ℕ)
    → m ≤ u32_max
    → (m ≤ missed_heartbeats now seen expected) ↔ (m * max expected 1 * nanos ≤ now - seen)
unfolding missed_heartbeats
missed_heartbeats_exact now seen expected m h =
    let interval = max expected 1 in
    let by_interval =
      le-div_iff_mul-le {k = interval} {x = m} {y = (now - seen) / nanos} (omega arith) in
    let by_nanos =
      le-div_iff_mul-le {k = nanos} {x = m * interval} {y = now - seen} (omega arith) in
    (
      λ p. by_nanos.0 (by_interval.0 (omega arith)),
      λ p. omega (arith, by_interval.1 (by_nanos.1 p)),
    )

-- As time goes by with no new heartbeat, the status that a node should have never gets healthier.
pub silence_degrades :
    (now later seen expected : ℕ) (policy : HeartbeatPolicy)
    → now ≤ later
    → severity (evaluate_status (missed_heartbeats now seen expected) policy)
      ≤ severity (evaluate_status (missed_heartbeats later seen expected) policy)
silence_degrades now later seen expected policy h =
    evaluate_status_mono _ _ policy (missed_heartbeats_mono now later seen expected h)

-- The counters agree: every row scanned is unchanged, changed or skipped, and every row that is
-- not skipped is counted under the status that it should have.
pub record Accounts (before after : ReconcileSummary) (rows : ℕ) : Type 0 where
  pub outcomes :
      after.unchanged + after.changed + after.skipped
      ≡ before.unchanged + before.changed + before.skipped + rows
  pub statuses :
      after.online + after.suspect + after.offline + before.unchanged + before.changed
      ≡ before.online + before.suspect + before.offline + after.unchanged + after.changed
  pub scanned : after.scanned ≡ before.scanned

-- How the database spells a status.
abbrev pub status_text : NodeStatus → String
status_text pending = "pending"
status_text online = "online"
status_text suspect = "suspect"
status_text offline = "offline"
status_text maintenance = "maintenance"

node_status_name_lem : (status : NodeStatus) → status_text status ≡ node_status_name status
unfolding node_status_name
node_status_name_lem pending = refl
node_status_name_lem online = refl
node_status_name_lem suspect = refl
node_status_name_lem offline = refl
node_status_name_lem maintenance = refl

module _ (now expected : ℕ) (policy : HeartbeatPolicy) where
  one-Accounts :
      (update_fails : Uuid → Bool) (row : NodeSnapshot) (s t : ReconcileSummary)
      → (reconcile_one now expected policy update_fails row s).1 ≡ ok t
      → Accounts s t 1
  unfolding reconcile_one desired_status_for_snapshot evaluate_status
  one-Accounts update_fails row s t h = ground arith

  rows-Accounts :
      (update_fails : Uuid → Bool) (rows : List NodeSnapshot) (s t : ReconcileSummary)
      → (reconcile_rows now expected policy update_fails rows s).1 ≡ ok t
      → Accounts s t (length rows)
  unfolding reconcile_rows
  rows-Accounts update_fails [] s t h = let same : s ≡ t = ground arith in ground arith
  rows-Accounts update_fails (row ∷ rows) s t h =
      elim (Result-cases (reconcile_one now expected policy update_fails row s).1) [
        | inl (e, refused) ↦ absurd (cc (rw (refused, reconcile_rows) at h))
        | inr (u, done) ↦ omega (
          arith,
          one-Accounts update_fails row s u done,
          rows-Accounts update_fails rows u t (rw (done, reconcile_rows) at h),
        )
      ]

  -- Every row that a run scans, and gets through, is counted as unchanged, changed or skipped, and the
  -- nodes counted online, suspect and offline are those that are not skipped.
  pub reconcile_accounts :
      (faults : RunFaults) (rows : List NodeSnapshot) (s : ReconcileSummary)
      → (reconcile_node_statuses now expected policy faults rows).1 ≡ ok s
      → (s.scanned ≡ length rows)
        × (s.unchanged + s.changed + s.skipped ≡ length rows)
        × (s.online + s.suspect + s.offline ≡ s.unchanged + s.changed)
  unfolding reconcile_node_statuses
  reconcile_accounts faults rows s h = elim (Option-cases faults.select_error) [
    | inr (e, refused) ↦ absurd (cc (rw (refused, reconcile_node_statuses) at h))
    | inl read ↦ omega (
      arith,
      rows-Accounts faults.update_fails rows (record no_summary { scanned = length rows }) s
          (rw (read, reconcile_node_statuses) at h),
    )
  ]

  -- A row as a run should leave it: a node in maintenance, or never seen, keeps its status, and any
  -- other has the status that its missed heartbeats give.
  abbrev pub settled : NodeSnapshot → NodeSnapshot
  settled row = if row.current_status == "maintenance" then row else elim row.last_seen_at [
    | none ↦ row
    | some seen ↦ record row {
      current_status = status_text (evaluate_status (missed_heartbeats now seen expected) policy);
    }
  ]

  evaluated_name : (m : ℕ) → (node_status_name (evaluate_status m policy) == "maintenance") ≡ false
  unfolding evaluate_status node_status_name
  evaluated_name m = elim (Bool-cases (leb policy.offline_after_missed m)) [
    | inl e ↦ rw e refl
    | inr e ↦ elim (Bool-cases (leb policy.suspect_after_missed m)) [
      | inl e' ↦ rw (e, e') refl
      | inr e' ↦ rw (e, e') refl
    ]
  ]

  -- A node that was seen should have the status of its missed heartbeats.
  desired_status-seen :
      (row : NodeSnapshot) (seen : DateTime)
      → (row.current_status == "maintenance") ≡ false
      → row.last_seen_at ≡ some seen
      → desired_status_for_snapshot row now expected policy
        ≡ some (evaluate_status (missed_heartbeats now seen expected) policy)
  unfolding desired_status_for_snapshot
  desired_status-seen row seen awake seen_at = rw (awake, seen_at) refl

  -- The status that a node should have.
  desired_status-cases :
      (row : NodeSnapshot)
      → ((desired_status_for_snapshot row now expected policy ≡ none) × (settled row ≡ row))
        ⊎ ((next : NodeStatus) × (desired_status_for_snapshot row now expected policy ≡ some next)
            × (settled row ≡ record row { current_status = node_status_name next })
            × (desired_status_for_snapshot (settled row) now expected policy ≡ some next))
  unfolding desired_status_for_snapshot
  desired_status-cases row = elim (Bool-cases (row.current_status == "maintenance")) [
    | inl resting ↦ inl (rw resting refl, rw resting refl)
    | inr e ↦ elim (Option-cases row.last_seen_at) [
      | inl unseen ↦ inl (rw (e, unseen) refl, ground arith)
      | inr (seen, seen_at) ↦
          let next = evaluate_status (missed_heartbeats now seen expected) policy in
          let spelled : settled row ≡ record row { current_status = status_text next } =
            ground arith in
          let named : settled row ≡ record row { current_status = node_status_name next } =
            spelled
            ∙ ap (λ text. record row { current_status = text }) (node_status_name_lem next) in
          inr (
            next,
            desired_status-seen row seen e seen_at,
            named,
            ap (λ (r : NodeSnapshot). desired_status_for_snapshot r now expected policy) named
                ∙ desired_status-seen (record row { current_status = node_status_name next }) seen
                    (evaluated_name (missed_heartbeats now seen expected)) seen_at,
          )
    ]
  ]

  -- A round settles its row, or leaves it and ends with the error of its update.
  one_settles :
      (update_fails : Uuid → Bool) (row : NodeSnapshot) (s : ReconcileSummary)
      → ((t : ReconcileSummary) × (reconcile_one now expected policy update_fails row s
            ≡ (settled row, ok t)))
        ⊎ ((update_fails row.node_id ≡ true)
            × (reconcile_one now expected policy update_fails row s
                ≡ (row, err (update_error row))))
  unfolding reconcile_one
  one_settles update_fails row s = elim (desired_status-cases row) [
    | inl (e, same) ↦ inl (record s { skipped = s.skipped + 1 }, rw (e, same, reconcile_one) refl)
    | inr (next, e, same, _) ↦
        let counted = count_status next s in
        elim (Bool-cases (row.current_status == node_status_name next)) [
          | inl stays ↦
              let there = (eq_iff row.current_status (node_status_name next)).0 stays in
              inl (
                record counted { unchanged = counted.unchanged + 1 },
                rw (e, same, stays, reconcile_one)
                    (ap
                      (λ status. (
                        record row { current_status = status },
                        ok (record counted { unchanged = counted.unchanged + 1 }),
                      ))
                      there),
              )
          | inr moves ↦ elim (Bool-cases (update_fails row.node_id)) [
            | inl refused ↦ inr (refused, rw (e, moves, refused, reconcile_one) refl)
            | inr written ↦ inl (
              record counted { changed = counted.changed + 1 },
              rw (e, same, moves, written, reconcile_one) refl,
            )
          ]
        ]
  ]

  -- A row that is settled needs no update.
  settled_stays :
      (update_fails : Uuid → Bool) (row : NodeSnapshot) (s : ReconcileSummary)
      → (t : ReconcileSummary) × (reconcile_one now expected policy update_fails (settled row) s
          ≡ (settled row, ok t))
  unfolding reconcile_one
  settled_stays update_fails row s = elim (desired_status-cases row) [
    | inl (e, same) ↦ (record s { skipped = s.skipped + 1 }, rw same (rw (e, reconcile_one) refl))
    | inr (next, e, same, again) ↦
        let counted = count_status next s in
        let named : ((settled row).current_status == node_status_name next) ≡ true =
          (eq_iff (settled row).current_status (node_status_name next)).1
            (ap (λ (r : NodeSnapshot). r.current_status) same) in
        (
          record counted { unchanged = counted.unchanged + 1 },
          rw (again, named, reconcile_one) refl,
        )
  ]

  -- How far a run has come: it settled every row, or it settled the rows before one whose update was
  -- refused, and left that row and the ones after it.
  abbrev pub RunEnds :
      (Uuid → Bool)
      → List NodeSnapshot
      → List NodeSnapshot × Result String ReconcileSummary
      → Type 0
  RunEnds update_fails rows (rows', outcome) =
      ((t : ReconcileSummary) × (outcome ≡ ok t) × (rows' ≡ map settled rows))
      ⊎ ((before : List NodeSnapshot) × (row : NodeSnapshot) × (after : List NodeSnapshot) × (rows
            ≡ before ++ row ∷ after)
          × (rows' ≡ map settled before ++ row ∷ after)
          × (update_fails row.node_id ≡ true)
          × (outcome ≡ err (update_error row)))

  reconcile_rows-cons :
      (update_fails : Uuid → Bool) (row row' : NodeSnapshot) (rows : List NodeSnapshot)
      (s t : ReconcileSummary)
      → reconcile_one now expected policy update_fails row s ≡ (row', ok t)
      → let rest = reconcile_rows now expected policy update_fails rows t in
        reconcile_rows now expected policy update_fails (row ∷ rows) s ≡ (row' ∷ rest.0, rest.1)
  unfolding reconcile_rows
  reconcile_rows-cons update_fails row row' rows s t e =
      ap
        (λ (r : NodeSnapshot × Result String ReconcileSummary). elim r.1 [
          | err e' ↦ (r.0 ∷ rows, err e')
          | ok summary' ↦
              let (rows', outcome') =
                reconcile_rows now expected policy update_fails rows summary' in
              (r.0 ∷ rows', outcome')
        ])
        e

  reconcile_rows-refused :
      (update_fails : Uuid → Bool) (row row' : NodeSnapshot) (rows : List NodeSnapshot)
      (s : ReconcileSummary) (e : String)
      → reconcile_one now expected policy update_fails row s ≡ (row', err e)
      → reconcile_rows now expected policy update_fails (row ∷ rows) s ≡ (row' ∷ rows, err e)
  unfolding reconcile_rows
  reconcile_rows-refused update_fails row row' rows s e refused =
      ap
        (λ (r : NodeSnapshot × Result String ReconcileSummary). elim r.1 [
          | err e' ↦ (r.0 ∷ rows, err e')
          | ok summary' ↦
              let (rows', outcome') =
                reconcile_rows now expected policy update_fails rows summary' in
              (r.0 ∷ rows', outcome')
        ])
        refused

  rows_settle :
      (update_fails : Uuid → Bool) (rows : List NodeSnapshot) (s : ReconcileSummary)
      → RunEnds update_fails rows (reconcile_rows now expected policy update_fails rows s)
  unfolding reconcile_rows
  rows_settle update_fails [] s = inl (s, refl, refl)
  rows_settle update_fails (row ∷ rows) s = elim (one_settles update_fails row s) [
    | inr (refused, e) ↦
        let step = reconcile_rows-refused update_fails row row rows s (update_error row) e in
        inr (
          [],
          row,
          rows,
          refl,
          ap (λ (r : List NodeSnapshot × Result String ReconcileSummary). r.0) step,
          refused,
          ap (λ (r : List NodeSnapshot × Result String ReconcileSummary). r.1) step,
        )
    | inl (t, e) ↦
        let step = reconcile_rows-cons update_fails row (settled row) rows s t e in
        let rows_after =
          ap (λ (r : List NodeSnapshot × Result String ReconcileSummary). r.0) step in
        let outcome = ap (λ (r : List NodeSnapshot × Result String ReconcileSummary). r.1) step in
        elim (rows_settle update_fails rows t) [
          | inl (u, done, all) ↦ inl (u, outcome ∙ done, rows_after ∙ ap (λ l. settled row ∷ l) all)
          | inr (before, stuck, after, split, left, refused, failed) ↦ inr (
            row ∷ before,
            stuck,
            after,
            ap (λ l. row ∷ l) split,
            rows_after ∙ ap (λ l. settled row ∷ l) left,
            refused,
            outcome ∙ failed,
          )
        ]
  ]

  settled_rows_stay :
      (update_fails : Uuid → Bool) (rows : List NodeSnapshot) (s : ReconcileSummary)
      → (t : ReconcileSummary) × (reconcile_rows now expected policy update_fails
            (map settled rows)
            s
          ≡ (map settled rows, ok t))
  unfolding reconcile_rows
  settled_rows_stay update_fails [] s = (s, refl)
  settled_rows_stay update_fails (row ∷ rows) s =
      let (t, e) = settled_stays update_fails row s in
      let (u, rest) = settled_rows_stay update_fails rows t in
      (
        u,
        reconcile_rows-cons update_fails (settled row) (settled row) (map settled rows) s t e
            ∙ ap
                (λ (r : List NodeSnapshot × Result String ReconcileSummary).
                  (settled row ∷ r.0, r.1))
                rest,
      )

  -- Where the rows can be read, a run settles every row, or it ends with the error of an update that
  -- was refused: the rows before that one are settled, it and the ones after it are as they were. A
  -- settled row in maintenance, or never seen, has the status that it had, and any other has the
  -- status that its missed heartbeats give.
  pub reconcile_settles :
      (faults : RunFaults) (rows : List NodeSnapshot)
      → faults.select_error ≡ none
      → RunEnds faults.update_fails rows (reconcile_node_statuses now expected policy faults rows)
  unfolding reconcile_node_statuses
  reconcile_settles faults rows read =
      rw (read, reconcile_node_statuses)
        (rows_settle faults.update_fails rows (record no_summary { scanned = length rows }))

  -- After a run that settled every row, another one at the same instant that can read the rows changes
  -- none of them, and succeeds even where every update would be refused.
  pub reconcile_node_statuses_twice :
      (faults again : RunFaults) (rows : List NodeSnapshot) (s : ReconcileSummary)
      → again.select_error ≡ none
      → (reconcile_node_statuses now expected policy faults rows).1 ≡ ok s
      → let rows' = (reconcile_node_statuses now expected policy faults rows).0 in
        (t : ReconcileSummary) × (reconcile_node_statuses now expected policy again rows'
          ≡ (rows', ok t))
  unfolding reconcile_node_statuses
  reconcile_node_statuses_twice faults again rows s read done =
      elim (Option-cases faults.select_error) [
        | inr (e, refused) ↦ absurd (cc (rw (refused, reconcile_node_statuses) at done))
        | inl read' ↦ elim (reconcile_settles faults rows read') [
          | inr (_, _, _, _, _, _, failed) ↦ absurd (cc (failed, done))
          | inl (_, _, all) ↦
              subst
                (λ r.
                  (t : ReconcileSummary) × (reconcile_node_statuses now expected policy again r
                    ≡ (r, ok t)))
                (sym all)
                (rw (read, reconcile_node_statuses)
                  (settled_rows_stay again.update_fails rows
                    (record no_summary { scanned = length (map settled rows) })))
        ]
      ]
