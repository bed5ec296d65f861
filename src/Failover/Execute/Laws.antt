-- ===== src/Failover/Execute/Laws.antt =====
-- A switch of a site is all or nothing in the database.
use pingora_mesh.Base.{
  ◌++◌, ◌≡◌, ◌∙◌, refl, sym, ap, String, Option, List, [], ◌∷◌, map, keep_if, inl, inr, arith, ok,
  err, Result-cases, Keeps, lift-Keeps, ◌⊎◌, lift, bind-ok, bind-Keeps, ◌>>=◌, ◌>>◌, Preorder,
}
use mathlib.Core.List.{append-nil, append_assoc}
use pingora_mesh.Domain.{Uuid, DateTime}
use pingora_mesh.Failover.Snapshot.{
  SiteSnapshot, SiteBindingSnapshot, PolicySnapshot, DnsZoneSnapshot,
}
use pingora_mesh.Failover.Dns.{DnsFailoverPlan, build_dns_failover_plan}
use pingora_mesh.Failover.Tables.{Tables}
use pingora_mesh.Failover.Database.{
  World, Act, rest, advance, query, execute, transaction, for_each,
}
use pingora_mesh.Failover.Database.Laws.{transaction-rolled_back, transaction-committed}
use pingora_mesh.Failover.Load.{load_dns_zone_snapshots}
use pingora_mesh.Failover.Execute.{
  Library, FailoverDraw, is_elsewhere, clear_bindings, binding_row, insert_binding,
  save_site_bindings, switched_of, release_statements, switch_statements, execute_site_failover,
}
use pingora_mesh.Failover.Execute.Frame.{Untouched, query-Untouched, release_statements-Untouched}

-- The events are the same, and where no step is to fail, none is to fail later.
abbrev SameEvents : World → World → Type 0
SameEvents world after =
    (after.tables.failover_events ≡ world.tables.failover_events)
    × (world.faults ≡ [] → after.faults ≡ [])

execute-saved :
    (f : Tables → Tables) (world : World) (u : Unit {0})
    → (execute f world).0 ≡ ok u
    → (execute f world).1.tables ≡ f world.tables
unfolding execute
execute-saved f world u done = ground arith

insert_bindings-saved :
    (site_id : Uuid) (bindings : List SiteBindingSnapshot) (world : World)
    → (for_each (insert_binding site_id) bindings world).0 ≡ ok tt
    → (for_each (insert_binding site_id) bindings world).1.tables.site_node_bindings
      ≡ world.tables.site_node_bindings ++ map (binding_row site_id) bindings
unfolding for_each
insert_bindings-saved site_id [] world done = sym (append-nil _)
insert_bindings-saved site_id (b ∷ bindings) world done =
    let (u, first, later, same) =
      bind-ok (insert_binding site_id b) (λ _. for_each (insert_binding site_id) bindings) world tt
        done in
    ap (λ w. w.tables.site_node_bindings) same
    ∙ insert_bindings-saved site_id bindings (insert_binding site_id b world).1 later
    ∙ ap (λ t. t.site_node_bindings ++ map (binding_row site_id) bindings)
        (execute-saved _ world u first)
    ∙ append_assoc world.tables.site_node_bindings (binding_row site_id b ∷ [])
        (map (binding_row site_id) bindings)

save_site_bindings-saved :
    (site_id : Uuid) (bindings : List SiteBindingSnapshot) (world : World)
    → (save_site_bindings site_id bindings world).0 ≡ ok tt
    → (save_site_bindings site_id bindings world).1.tables.site_node_bindings
      ≡ keep_if (is_elsewhere site_id) world.tables.site_node_bindings
        ++ map (binding_row site_id) bindings
unfolding save_site_bindings
save_site_bindings-saved site_id bindings world done =
    let (u, first, later, same) =
      bind-ok (clear_bindings site_id) (λ _. for_each (insert_binding site_id) bindings) world tt
        done in
    ap (λ w. w.tables.site_node_bindings) same
    ∙ insert_bindings-saved site_id bindings (clear_bindings site_id world).1 later
    ∙ ap (λ t. t.site_node_bindings ++ map (binding_row site_id) bindings)
        (execute-saved _ world u first)

SameEvents-order : Preorder SameEvents
SameEvents-order = record {
  same = λ world. (refl, λ c. c);
  after = λ world middle last (h, c) (k, d). (k ∙ h, λ e. d (c e));
}

execute-events :
    (f : Tables → Tables)
    → ((tables : Tables) → (f tables).failover_events ≡ tables.failover_events)
    → Keeps SameEvents (execute f)
unfolding Keeps execute
execute-events f h world = (ground (arith, h world.tables), λ c. ground (arith, ap rest c))

insert_bindings-events :
    (site_id : Uuid) (bindings : List SiteBindingSnapshot)
    → Keeps SameEvents (for_each (insert_binding site_id) bindings)
unfolding for_each
insert_bindings-events site_id [] = lift-Keeps SameEvents SameEvents-order (ok tt)
insert_bindings-events site_id (b ∷ bindings) =
    bind-Keeps SameEvents SameEvents-order _ _ (execute-events _ (λ tables. refl))
      (λ _. insert_bindings-events site_id bindings)

save_site_bindings-events :
    (site_id : Uuid) (bindings : List SiteBindingSnapshot)
    → Keeps SameEvents (save_site_bindings site_id bindings)
unfolding save_site_bindings
save_site_bindings-events site_id bindings =
    bind-Keeps SameEvents SameEvents-order _ _ (execute-events _ (λ tables. refl))
      (λ _. insert_bindings-events site_id bindings)

Untouched-events : {A : Type 0} (m : Act A) → Keeps Untouched m → Keeps SameEvents m
unfolding Keeps
Untouched-events m h world = ((h world).events, (h world).calm)

module _ (library : Library) (draw : FailoverDraw) (policy : PolicySnapshot) (site : SiteSnapshot)
    (event_id : Uuid) (now : DateTime) where
  switch_statements-events :
      Keeps SameEvents (switch_statements library draw policy site event_id now)
  unfolding switch_statements load_dns_zone_snapshots
  switch_statements-events =
      bind-Keeps SameEvents SameEvents-order _ _ (Untouched-events _ (query-Untouched _)) (λ zones.
        bind-Keeps SameEvents SameEvents-order _ _
          (lift-Keeps SameEvents SameEvents-order
            (build_dns_failover_plan library.parsers site policy zones))
          (λ plan.
            bind-Keeps SameEvents SameEvents-order _ _ (save_site_bindings-events site.site_id _)
              (λ _.
                Untouched-events _
                  (release_statements-Untouched library draw policy event_id now site plan _))))

  -- Whatever becomes of a switch, it leaves the events alone.
  pub execute_site_failover-events :
      (world : World)
      → let after = (execute_site_failover library draw policy site event_id now world).1 in
        (after.tables.failover_events ≡ world.tables.failover_events)
        × (world.faults ≡ [] → after.faults ≡ [])
  unfolding execute_site_failover transaction Keeps
  execute_site_failover-events world =
      let (events, calm) = switch_statements-events (advance world) in
      (ground (arith, events), λ c. ground (arith, calm (ap rest c), ap rest c))

  switch_statements-bindings :
      (world : World) (u : Unit {0})
      → (switch_statements library draw policy site event_id now world).0 ≡ ok u
      → (switch_statements library draw policy site event_id now world).1.tables.site_node_bindings
        ≡ keep_if (is_elsewhere site.site_id) world.tables.site_node_bindings
          ++ map (binding_row site.site_id) (switched_of library draw policy site)
  unfolding switch_statements load_dns_zone_snapshots query Keeps
  switch_statements-bindings world u done =
      let switched = switched_of library draw policy site in
      let saved : Option DnsFailoverPlan → Act (Unit {0}) = λ plan.
        save_site_bindings site.site_id switched
        >> release_statements library draw policy site plan switched event_id now in
      let planned : List DnsZoneSnapshot → Act (Unit {0}) =
        λ zones. lift (build_dns_failover_plan library.parsers site policy zones) >>= saved in
      let (zones, _, ran_planned, same_zones) =
        bind-ok load_dns_zone_snapshots planned world u done in
      let queried = (load_dns_zone_snapshots world).1 in
      let (plan, _, ran_saved, same_plan) =
        bind-ok (lift (build_dns_failover_plan library.parsers site policy zones)) saved queried u
          ran_planned in
      let (first, ran_save, ran_release, same_saved) =
        bind-ok (save_site_bindings site.site_id switched)
          (λ _. release_statements library draw policy site plan switched event_id now) queried u
          ran_saved in
      let after = (save_site_bindings site.site_id switched queried).1 in
      ap (λ w. w.tables.site_node_bindings) (same_zones ∙ same_plan ∙ same_saved)
      ∙ (release_statements-Untouched library draw policy event_id now site plan switched
          after).bindings
      ∙ save_site_bindings-saved site.site_id switched queried ran_save

  -- A switch that fails, at whatever step, leaves every table as it was. One that succeeds has
  -- replaced the bindings of the site by those of `build_switched_bindings`, in that order, and left
  -- the bindings of the other sites alone.
  pub execute_site_failover-atomic :
      (world : World)
      → let (result, after) = execute_site_failover library draw policy site event_id now world in
        ((e : String) × (result ≡ err e) × (after.tables ≡ world.tables))
        ⊎ ((result ≡ ok tt)
            × (after.tables.site_node_bindings
                ≡ keep_if (is_elsewhere site.site_id) world.tables.site_node_bindings
                  ++ map (binding_row site.site_id) (switched_of library draw policy site)))
  unfolding execute_site_failover
  execute_site_failover-atomic world =
      elim (Result-cases (execute_site_failover library draw policy site event_id now world).0) [
        | inl (e, failed) ↦ inl (
          e,
          failed,
          transaction-rolled_back (switch_statements library draw policy site event_id now) world e
              failed,
        )
        | inr (u, done) ↦
            let (ran, kept) =
              transaction-committed (switch_statements library draw policy site event_id now) world
                u done in
            inr (
              done,
              ap (λ t. t.site_node_bindings) kept
                  ∙ switch_statements-bindings (advance world) u ran,
            )
      ]
