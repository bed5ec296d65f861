-- ===== src/Lib.antt =====
-- PingoraMesh, a control plane for a mesh of Pingora gateways: a hub that stores nodes, sites, releases
-- and certificates and answers requests (apps/hub-api), workers that run beside it over the same
-- rows (apps/status-worker, apps/failover-worker, apps/dns-worker), and an agent on each node
-- (apps/node-agent). The library models the hub's memory repository, its token store and most of
-- its service, the status worker, and the failover worker.
--
-- Base: shared types, lists, stable sorting, orders, maps, texts, results, and state with errors.
-- Json: `serde_json::Value` and its accessors.
-- Domain: crates/domain. A `Uuid` is a number, a `DateTime` a number of nanoseconds.
-- Lifecycle: `NodeLifecycleService` of crates/application and `reconcile_node_statuses` of
--   apps/status-worker/src/main.rs. A row is a `NodeSnapshot`, an update its new status, and the
--   statements that the database refuses in a run are an argument.
-- SiteConfig: `parse_upstreams`, `parse_routes` and `parse_cache_rules` of apps/hub-api/src/store.rs;
--   the failover worker has a copy of them. ReleasePlanner: crates/application.
-- DnsProvider: crates/dns-provider. OpsOrchestrator: crates/ops-orchestrator.
-- Failover: apps/failover-worker/src/main.rs. Failover.Policy is `evaluate_policy`,
--   Failover.Bindings is `build_switched_bindings`, `current_primary_node_id` and
--   `select_next_policy_standby`, Failover.Dns is `build_dns_failover_plan`, Failover.Apply is
--   `apply_dns_failover`, Failover.Operations is `parse_post_switch_operation`, Failover.Load the
--   queries, Failover.Execute is `execute_site_failover` and Failover.Run the cycle. The tables
--   (Failover.Tables) are lists of rows, a statement is a function on them, and Failover.Database
--   says by a schedule which statement, commit or call of the provider fails; a transaction that
--   does not commit gives back the tables as they were.
-- ConfigCompiler: crates/config-compiler.
-- Hub: apps/hub-api. Hub.Records holds the rows of store.rs, Hub.Memory the `MemoryRepository`
--   with one function on its state for each method (Hub.Memory.Nodes, Sites, Releases, Dns, Admin,
--   Operations), Hub.Tokens the `MemoryTokenStore` of token_store.rs, and Hub.Service the requests
--   of service.rs as actions on the state behind the service, which may fail with an `AppError`.
--   Hub.Service.Validation is `validate_site_config`, Publish the releases, Switch
--   `switch_site_primary`, Sites the sites, Operations the templates and operations.
--   Hub.Service.Requests puts the modelled requests together as one step relation. Where the code
--   reads the clock or draws a random `Uuid`, the function takes it as an argument. `find_node`,
--   `find_site` and `find_release` are the methods `node`, `site` and `release` of the repository,
--   and `remove_node` is the service's `delete_node`.
-- Tests: runs on small inputs.
--
-- The text of a `Uuid` and the SHA-256 of a text come from libraries and are parameters. A `HashMap`
-- is an association list, walked in one of the orders that the iterator may take. A lock is held for
-- the whole body of a method, so a method is one step. An `i32` that is added to wraps around as in a
-- release build. Loops are over lists and structural recursion, but for two. The digits of a number
-- are written on fuel that is its value and one more. The search for a free site code has as many
-- rounds as there are codes and one more, which is enough by the theorem on it, as long as there are
-- fewer codes than values of its `u32` counter, which wraps around too. The memory repository never
-- fails, so `map_store_error` has no case. A constraint of the database that refuses a statement is
-- one more fault of the schedule.
--
-- Not modelled: the HTTP layer and the pages, the Postgres repository and the Redis token store (what
-- a statement does is decided by the server), the dns worker, the node agent, the query that loads
-- the active policies of the failover worker, the HTTP conversation with cloudflare, and the requests
-- of the service on administrators, new nodes, certificates and dns zones.
pub mod Base
pub mod Json
pub mod Domain
pub mod SiteConfig
pub mod ReleasePlanner
pub mod DnsProvider
pub mod OpsOrchestrator
pub mod Lifecycle
pub mod Failover
pub mod ConfigCompiler
pub mod Hub
pub mod Tests
