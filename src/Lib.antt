-- ===== src/Lib.antt =====
-- Overseerd: a Rust framework for daemons, with dependency injection, typed configuration,
-- transports, scheduled jobs and publish/subscribe.
--
-- The program's parts. An application registers components, which the container of crates/di builds
-- and hands out; a trait's providers are collected in the order that registry/order.rs computes.
-- crates/config reads a tree of values whose texts may hold placeholders and resolves them against
-- the environment and the tree. crates/transport frames messages on a connection and names the
-- status of an error. crates/jobs drives each scheduled job by one loop, which starts the job's
-- runs as tasks of their own and shares the job's entry with them and with the calls of the
-- scheduler. crates/axum keeps the subscriptions of WebSocket connections and fans messages out to
-- them. The parts share no state. They meet where one calls another: the registry's `validate` is the
-- checks of ids, dependencies, orderings and scopes in turn; a reload runs the hooks; the client of
-- crates/rpc and the connections of crates/transport use the same frames and messages.
--
-- Which file models what:
-- - Base: tests, lists, association lists, results and bits that the parts share.
-- - Di/Descriptors: crates/di/src/descriptors/component.rs, what a component declares.
-- - Di/Grouping and Di/Order: crates/di/src/registry/order.rs, `build` with its checks
--   (`check_all`) and its loops (`add_sources`, `pick`). Graph counts predecessors, Picking
--   follows the loop, Constraints relates edges and orderings, Completeness and Solvable are about
--   orders that could be found.
-- - Di/Construction: crates/di/src/container.rs, `topological_sort` with `dep_ready` and
--   `select_provider_for`, for given wait sets. The components left after a pass are the fuel of
--   the passes; a pass that takes none ends the sort. Passes follows them, Wedged is about a
--   dependency that no pass resolves.
-- - Di/Waits and Di/Sorting: crates/di/src/container.rs, `WaitExpansion` and the whole of
--   `topological_sort`. Needs says without memos what a provider or a trait needs; Visiting,
--   Exact, Providers, Expanding and Sets compare the wait sets with it, Selected, Built and Sorted
--   the order of the components.
-- - Di/Validation: crates/di/src/registry.rs, `validate_dependencies`. Selection relates the counts
--   of providers to the selection of crates/di/src/container.rs.
-- - Di/Scopes: crates/di/src/registry.rs, `validate_scopes`, with the scopes of
--   crates/core/src/scope.rs. Holding says what a component holds, also through others, and Captive
--   what that may be.
-- - Di/Resolved: crates/di/src/registry.rs, `resolved_components`, with `effective_factory` of
--   crates/di/src/descriptors/component.rs. Chosen and Override are about which descriptor is kept;
--   that none has a type twice is what Di/Scopes asks of the components.
-- - Di/Registry: crates/di/src/registry.rs, `validate` with the checks of ids and qualifiers
--   (Names), deferred dependencies (Deferred) and fresh ones (Fresh). Uniqueness, Stored and
--   Visible say what each establishes, Sound what the whole does, with Di/Resolved,
--   Di/Validation, Di/Order and Di/Scopes.
-- - Config/Value: crates/config/src/value.rs (`ConfigValue`, `ConfigStr`, `lookup_path`).
-- - Config/Template: crates/config/src/parse.rs (`parse_template`, `parse_placeholder`,
--   `read_default`, `classify`); `scan` is its loop as one pass with a mode.
-- - Config/Literals and Config/Defaults: crates/config/src/defaults.rs
--   (`DefaultSpec::fill_missing`), the readers of numbers and Booleans apart.
-- - Config/Resolve: crates/config/src/resolve.rs (`resolve_placeholder`, `render_str`, the
--   budgets). Actions has the context that is passed on, Runs what an action keeps of it; the
--   resolvers are a function from names to texts.
-- - Config/Slots and Config/Reload: crates/config/src/managed/reload.rs
--   (`ConfigReloader::reload`), the state apart. Answers, Publishing and
--   Transaction say what a reload leaves; the manager that reads the sources and binds the values
--   is an interface.
-- - Config/Sources: crates/config/src/managed/source.rs (`merge_into`, `load_in`, `reread`,
--   `push_binding`). Keys and Merging say what a merged tree holds, Loading compares loading and
--   reading again. `Path::extension` is as it is on Unix.
-- - Hooks: crates/hooks/src/lib.rs (`HookManager`); Running compares `run` and `run_until_error`.
-- - Transport/Status: crates/transport/src/status.rs. Transport/Codec:
--   crates/transport/src/protocol/codec.rs (`MessageReader::read_message`, `write_message`).
-- - Transport/Wire: crates/transport/src/protocol/mod.rs, with frame.rs and error.rs beside it.
--   Transport/Stream: crates/transport/src/transports/stream.rs; Recv has the turns of
--   `StreamConnection::recv`, Rejecting its way to refuse a call's items, Writing the responders,
--   sinks and control tasks around the write lock.
-- - Rpc/Lanes, Rpc/Client and Rpc/Source: crates/rpc/src/client.rs, the state, the read loop and
--   what a call's source receives. Routing and Demux follow a call's lane through
--   `read_loop`, Receiving through `recv` and `poll_recv`.
-- - Jobs/Entry: crates/jobs/src/registry.rs (`JobEntry`), with the states in Jobs/Summary.
--   Jobs/Run: crates/jobs/src/run.rs (`drive_job`, `maybe_start_run`, `execute_run`) with the calls
--   of crates/jobs/src/scheduler.rs as events. A panic of a job's body is an event that ends the
--   run's task where it stands, and a call of `cancel` is two events, one for the state and one for the
--   token. Jobs/Log: crates/jobs/src/log.rs
--   (`InMemoryJobLogStore`).
-- - Macros/Case: crates/macros-core/src/case.rs (`RenameRule::apply_to_variant`, `apply_to_field`).
-- - Pubsub/Registry: crates/axum/src/ws/pubsub/registry.rs (`SubscriptionRegistry`). A publish
--   takes its ids one by one; how many others take in between is an argument.
--
-- Conventions. A method takes the state and gives it back. Numbers are natural numbers; a `u64`
-- counter wraps at 2^64 where it is raised or lowered, and a subtraction stops at 0 only where the
-- source's does or where it cannot go below. A text is the list of its code points. A hash map is
-- an association list or a function; where the source walks one, the model walks it in the order of
-- insertion. A step is a call, a turn of a loop with the branch of `select!` that it takes, or a
-- part of a task between two points that its model names; of a job's `cancel` each operation is a
-- step, and of a publish each takes an argument for what others do before it. The steps of the loop,
-- the tasks and the calls come in any order.
--
-- Fuel. Resolution recurses through the configuration's own values, so it has fuel: 65, one more
-- than the 64 depths that the source allows; at the last depth it has stopped with the depth error
-- before the fuel is used up. The sort's fuel is the number of components, and that of the
-- expansion of its wait sets one more than the transient components, each of which is entered once
-- at a time. All other loops are
-- recursions on what they consume: the characters of a template, the orderings and providers, the
-- number of providers still to pick, the reads of a schedule, the records of a log.
--
-- Not in the source and so parameters: the serialization of messages (`from_bytes`, `to_allocvec`),
-- the environment and other resolvers, the clock, what a schedule gives, how a job's body ends,
-- what a hook's call gives, the files of a configuration with the error of reading one that is not
-- there, and which characters Unicode has as capitals. The parsers of documents rest on libraries
-- and are arguments too.
--
-- Not modelled: the procedural macros (crates/macros, the rest of crates/macros-core and the macro
-- crates of jobs, rpc and axum), which transform Rust syntax; the serde deserializer and the file
-- formats of crates/config, with the seeding of defaults, typed reading and what triggers a reload;
-- sockets, the server side of RPC, STOMP and JSON messages; the construction of components and the
-- application's assembly; directories. Of a job, the jitter, the logging layer and the metrics are
-- left out.
pub mod Base
pub mod Config
pub mod Di
pub mod Hooks
pub mod Jobs
pub mod Macros
pub mod Pubsub
pub mod Rpc
pub mod Transport
