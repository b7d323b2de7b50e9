-- ===== src/Lib.antt =====
-- A verification library of monitorbeat, a host monitoring agent with a web console.
--
-- The program's parts that are modelled, and the files:
--   * The alerting service of the console. `Alerts/Labels` is the part of
--     web/alerts/fingerprint.go and web/alerts/store.go on label maps (Fingerprint, encodeLabels,
--     decodeLabels); `Alerts/Time` and `Alerts/Models` are web/alerts/models.go and the time
--     helpers of store.go, `Alerts/Time/Wire` is web/alerts/time.go; `Alerts/Store` with its children is web/alerts/store.go, each SQL
--     statement a function on the rows of its table (UpsertState is `upsert_state`, and so on);
--     `Alerts/Evaluator` is web/alerts/evaluator.go, evaluateRule cut into one function for each
--     branch; `Alerts/Api` is web/api/alerts.go, a handler for each endpoint. `Alerts/Api/Reach`
--     runs any sequence of requests and ticks of the evaluator from an empty database.
--   * The registry of agents in the console: `Registry/Store` and `Registry/Handler` are
--     web/registry/store.go, models.go and handler.go; `Registry/Served` runs any heartbeats and
--     turns of the cleaning loop.
--   * The scheduler of the agent's tasks. `Daemon/Job`, `Daemon/Queue` and `Daemon/Scheduler` are
--     scheduler/daemon/job.go, queue.go and scheduler.go; `Daemon/Collections` states what they
--     rely on of the gods containers, and `Daemon/Instances` fills these interfaces by lists.
--   * The engine and the reloader. `Engine` is internal/engine/engine.go, which hands each event
--     to every output, and internal/reloader/reloader.go.
--   * The other schedulers and their use. `Schedulers/Checker` and `Schedulers/Keyword` are
--     scheduler/checker/scheduler.go and scheduler/keyword/scheduler.go, and `Schedulers/Agent` is
--     the part of cmd/monitorbeat/main.go that starts, reloads and stops the tasks, over both
--     `Daemon/Scheduler` and `Schedulers/Keyword`; `Schedulers/Wiring` is the part that builds the
--     outputs.
--   * The outputs of the agent. `Output/File` is internal/output/file.go, and `Output/Http` is
--     internal/output/http.go, with the retries of trySend and the local fallback; `Output/Disk`
--     is the file that each writes and its backups; `Output/Metrics` is formatVictoriaMetrics of
--     http.go up to the JSON of its lines, and `Output/Payload` its other formats and
--     internal/output/console.go. The text that an event is encoded to is given.
--   * The ping task. `Ping/Echo`, `Ping/Result` and `Ping/Icmp` are echo.go, result.go and icmp.go
--     of tasks/ping: the payload of a probe, the summary of the round trips, and the backend that
--     sends probes and picks the replies; `Ping/Command` is the backend that runs a command.
--   * The exceptionbeat task. `Exceptionbeat` is tasks/exceptionbeat/exceptionbeat.go: `Oom`,
--     `Corefile` and `DiskRo` are collectOOM, collectCorefile and collectDiskRO, `DiskSpace` is
--     collectDiskSpace, `Gather` is Run, and `Strings` is what they use of Go's strings and
--     strconv on ASCII text.
--   * The other tasks. `Tasks/Event` holds the events; `Tasks/Probe` is tasks/probe with the tcp,
--     udp and http probes, `Tasks/Keyword` tasks/keyword, `Tasks/Basereport` and `Tasks/Dmesg`
--     those tasks, `Tasks/Reports` the selfstats, gatherupbeat, socketsnapshot, script, metricbeat
--     and processbeat events, `Tasks/Heartbeat` tasks/registry, and `Tasks/Factory`
--     tasks/factory.go with buildAllTasks.
--   * Script output. `Script` is parseCustom and Parse of internal/script/parse/parser.go, with
--     the limit that bufio.Scanner has on a line; `Script/Prometheus` is parsePrometheus and
--     internal/script/exec/runner.go.
--   * The process task. `Processbeat` is tasks/processbeat/processbeat.go from the processes of
--     the host to those that are reported.
--   * The dashboard of the console. `Dashboard/Vm` is web/vm/client.go; `Dashboard/Promql` holds
--     the queries, `Dashboard/Handlers` and `Dashboard/Replies` the handlers of web/api/server.go; `Dashboard/Routes`
--     is what NewServer routes to the handlers of the alert rules.
--   * Mails. `Smtp` is web/smtp/sender.go: the message of an alert and the call that sends it;
--     `Smtp/Reader` reads a mail's header.
--   * Log files. `Input/Harvester` is internal/input/file/harvester.go, which sends the lines of
--     one file as it grows, and `Input/Harvester/Watch` how it starts and waits; `Input/Offsets`
--     is internal/input/file/registry.go, and `Input/Decimal` prints the numbers of its keys. A
--     harvester starts at the offset that the registry gives, and saves its own.
--   * The configuration. `Configs/Param` is configs/basetaskparam.go, `Configs/Tasks` the fourteen
--     task configurations in configs/ with the Clean of each, `Configs/Root` and
--     `Configs/HttpOutput` are configs/config.go. The idents that it fills in are the keys of the
--     scheduler's tasks. `WebConfig` is web/config/config.go.
-- The evaluator and the handlers share the store, and meet only there: the evaluator writes
-- states, history and mails, the handlers write rules and acknowledgements and read the rest.
--
-- State and effects. `World` holds the three tables, the mails sent, and how many statements,
-- clock readings and queries have been done. A computation of `Alerts/Monad` passes it on and may
-- fail. `Env` holds what the code under study does not define: which statements fail, the clock at
-- each reading, the answers of VictoriaMetrics, the order in which a map is visited, SHA-256, JSON
-- quoting and decoding. The theorems hold for every such environment that meets their conditions.
-- The scheduler's `State` is passed explicitly; jobs run and jobs stopped are results.
--
-- Representation. A string is its list of bytes. An instant is nanoseconds since Go's zero time,
-- its RFC 3339 text the second that it holds. A float64 is its 64-bit pattern: `Base/Float`
-- compares two, rounds an integer to one and divides a duration by a unit; other arithmetic is
-- given. A Go map is its entries in the order of a visit. Multiplication of durations wraps at 64
-- bits (`mul64`), as do sums and differences of int64 (`add64`, `sub64`); a bound stands where no
-- wrap may happen, such as 292 years on a rule's duration. Three functions take fuel: `digits`,
-- for which the number plus one is enough, `drain`, for which the bytes that are left plus one are
-- enough, and `width`, for which 64 is enough below 2 ^ 64 and 256 for what `of_ratio` divides;
-- every other loop follows a list.
--
-- Not modelled. Goroutines, tickers and locks: a tick, a request, a round and a reload are each
-- one step, in any order; a failure in the middle of a step is still seen, statement by statement.
-- An SQL SELECT without ORDER BY returns the rows in table order, and equal keys of ORDER BY keep
-- it. A failing Scan of a row counts as a failing statement. Logging, the encoding of responses,
-- the flags, signals and servers of cmd/ and http/admin, and the accessors of BaseTask are left
-- out. Of the harvester, the decoders and the channel between the reader and its client are left
-- out. What gopsutil, the regexp engine, expfmt, JSON, YAML and the network do is given wherever
-- it is used.
pub mod Alerts
pub mod Base
pub mod Configs
pub mod Daemon
pub mod Dashboard
pub mod Engine
pub mod Exceptionbeat
pub mod Input
pub mod Output
pub mod Ping
pub mod Processbeat
pub mod Registry
pub mod Schedulers
pub mod Script
pub mod Smtp
pub mod Tasks
pub mod WebConfig
