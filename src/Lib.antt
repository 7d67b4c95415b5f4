-- ===== src/Lib.antt =====
-- The systemd monitoring MCP server: an HTTP service that answers MCP requests about the units,
-- timers, journal and containers of a host.
--
-- A request comes in over HTTP. The rate limiter decides on it first, then, for the protected routes,
-- the bearer token; `/mcp` takes one JSON-RPC message or a batch of them. A message is classified,
-- its shape is checked, its method is dispatched, and tools and resources are computed from what the
-- providers list. The server keeps one piece of state, the token bucket.
--
--   * RateLimit (src/rate_limit.rs): the policy, the bucket and the decision `check_at`. f64 is the
--     record `Float`, with what IEEE 754 promises in `FloatLaws`; RateLimit.Exact computes without
--     rounding, and the rates of RateLimit.Window are about it. Durations are nanoseconds. The mutex
--     makes decisions a sequence, which is what RateLimit.Runs models.
--   * Http (src/http/handlers.rs, src/auth.rs, the middleware of src/rate_limit.rs, `build_app` of
--     src/lib.rs): a routed request to its response, its audit entries and the limiter after it.
--   * Server (src/mcp/server.rs): `handle_json_rpc_value` and all it calls. The audit entry of a
--     request is part of its result. Server.Version has what the MCP kit and chrono give, as `Kit`.
--   * Audit (src/mcp/server.rs): the redaction of audited parameters.
--   * Rpc, Errors, Responses (src/mcp/rpc.rs, src/errors.rs, src/domain/responses.rs): responses,
--     errors and pages. What the kit's types serialise as is the record `Sdk`.
--   * Config (src/config.rs): `parse_config` is `Config::parse`.
--   * Utils (src/domain/utils.rs): validation of parameters; Utils.Selection filters and sorts rows.
--   * Services, Timers, Logs (src/domain/tools/services.rs, timers.rs, logs.rs): one tool each, with its
--     parameters, its rows, its summary and its handler; Counts has the counters of the summaries.
--   * Tools and Tools.Inspect (src/domain/tools.rs, unit_status.rs, podman.rs): the dispatch of
--     `tools/call` and the tools for one unit, container or pod; Tools.Containers puts the container
--     tool on the podman command.
--   * Resources (src/domain/resources.rs): `resources/list` and `resources/read`.
--   * Units, Env (src/systemd_client.rs, src/podman.rs): the data and the traits of the providers, the
--     clock, and the decoders that serde derives, gathered in the record `Env`.
--   * Systemd (src/systemd_client.rs): Systemd.Scopes maps, sorts and merges rows, Systemd.Messages
--     sanitises messages, Systemd.Dependencies classifies dependencies and Systemd.Defaults has the
--     default bodies of the trait. Systemd.Journal reads the journal: Cursor, Scan (`read_journal_logs`)
--     and Transitions (`read_unit_transitions`), over libsystemd as the record `Journal`; Records and
--     Answer have the list of entries that a scan is compared with. Systemd.Bus reads units over D-Bus,
--     over zbus as the record `Bus`: Services, Timers, Inspection (`get_unit_status`) and Availability.
--   * Podman (src/podman.rs): runs of the command, with its outcome as the parameter `PodmanHost`;
--     Podman.Argv sanitises arguments, Podman.Compact makes the answers, Podman.Provider is
--     `CliPodmanProvider`.
--   * Base, Text, Json: numbers, lists, stable sorting, strings and serde_json's values.
--   * Examples: a small host, and every theorem with parameters at a concrete input.
--
-- Providers are functions of their arguments: a handler calls each at most once, so that one answer
-- per call is all that can be seen. A string is the list of its code points. The loops are structural
-- recursion. Two use fuel: the printing of a number, one more than the number, which is enough for
-- its digits (Text.Decimal), and the scan of the journal, where any fuel above the number of entries
-- ahead is enough (Systemd.Journal.Termination). The scan for transitions is bounded by the code. Reads
-- over D-Bus that run at the same time do not influence each other and stand in order.
--
-- Not modelled: the calls inside libsystemd, zbus and the podman process, which are parameters, reading
-- the environment, start-up, signal handling and log output, which are input and output, and the tool
-- catalogue, which macros generate. axum's routing of paths that have no handler is left to it.
pub mod Base
pub mod Text
pub mod Json
pub mod Errors
pub mod RateLimit
pub mod Units
pub mod Utils
pub mod Rpc
pub mod Counts
pub mod Responses
pub mod Env
pub mod Services
pub mod Timers
pub mod Audit
pub mod Config
pub mod Logs
pub mod Tools
pub mod Resources
pub mod Server
pub mod Http
pub mod Systemd
pub mod Podman
pub mod Examples
