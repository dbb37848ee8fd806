-- ===== src/Lib.antt =====
-- Verification of the benchmark of Knative: a load generator, the connection pool it sends through,
-- the log it writes, and the programs that collect the results.
--
-- How the parts work together. cmd/workload-generator opens a log file (pkg/store), loads a
-- configuration (pkg/config), makes a pool (pkg/connection) and runs a generator (pkg/generator) with it.
-- The generator asks the pool for one response after the other, and writes a line of structured log
-- for each. cmd/logparser reads the log files: the experiment from the name of the file, the settings
-- from its second line, the requests from the other lines, and writes them into two tables.
-- cmd/reciever posts the events of a run to cmd/eventlogger, cmd/deployer puts the services and
-- triggers of an experiment into a cluster, cmd/top stores the metrics of its nodes and pods in rounds,
-- and functions/ holds the functions under test.
--
-- Files.
--   Prelude.antt: shared types, Boolean tests, lists, integers, texts (lists of bytes) and maps.
--   Decimal.antt, Timestamp.antt: what is used of Go's packages strconv and time.
--   Config.antt: pkg/config/config.go, `Target`, `Rate`, `Config`, `load`.
--   Store.antt: pkg/store/store.go, `log_file_path` for `GetLogFilePath`, with what `filepath.Join` does to
--     the directory and the name, and `log_file_writer` for `GetLogFileWriter`.
--   Pool.antt: pkg/connection/pool.go, `get`, `post` and `generate_cloud_event`. Pool/Headers has the
--     headers and their canonical keys, Pool/Trace `executeWithMetrics` with the callbacks of the
--     trace, and Pool/Mock the mock pool.
--   Generator.antt: pkg/generator/generator.go. Generator/State is the generator, Generator/Request
--     what is done with one response, Generator/Loop the loops of `run`, `runMaxThroughput` and
--     `runColdStart`, Generator/RampUp `rampUp` and `run`, Generator/CloudEvent the generator of
--     events.
--   LogLine.antt: the line that the generators write for a request that succeeded, as `slog.TextHandler`
--     prints it; the modules below it follow the line into the log parser.
--   WorkloadGenerator.antt: cmd/workload-generator/main.go, `main` and `ping`: a run is the log that main
--     writes, the generator that it starts, and how it ends.
--   LogParser.antt: cmd/logparser/main.go. LogParser/Filename is `parseFilename`, LogParser/Pairs
--     `parseKeyValuePairs`, LogParser/ConfigLine `parseConfig`, LogParser/Request `parseRequest`,
--     LogParser/Database the tables and `insertExperiment` and `insertRequests`, LogParser/Process
--     `processFile` and `processLogs`.
--   EventLogger.antt: cmd/eventlogger/main.go, the handler of `/log`.
--   Receiver.antt: cmd/reciever/main.go, the handler of an event, against the event logger.
--   Deployer.antt: cmd/deployer/main.go, the loops that create and delete objects in a cluster, and
--     the patches of triggers; Deployer/Objects has the objects and their names, Deployer/Patch
--     `patchFunctionService`, and Deployer/Main `main`.
--   Collector.antt: cmd/top/main.go. Collector/Nodes is `collectNodeMetrics`, Collector/Pods
--     `collectPodMetrics`, Collector/Rounds the rounds of `run`, Collector/Csv and Collector/Sqlite the
--     two storages, and Collector/Log what a storage promises; Collector/Loop is a loop whose body may
--     return an error, and Collector/Expected what the usages mean, apart from the code.
--   Functions.antt: functions/empty-go, functions/sleep-go-http and functions/go-handler-event.
-- The modules below these hold the lemmas, and the modules Tests runs on small inputs.
--
-- Concurrency and time. A `select` is a step of a loop over a schedule, the list of what wakes the
-- loop up: the end of the context, a timer, or a tick with the error of the limiter, if there is one,
-- and the time that has passed. A goroutine that sends a request is the start of that request, in
-- order; what it does with the response is a function of the response. A loop whose schedule is over
-- is still running, `waiting`; one that makes a ticker without a positive interval is `panicked`. The
-- cold-start loop sends one request after the other, so its schedule has the time that each takes. A mutex is a flag of the state.
--
-- Bounds and fuel. Numbers of requests, times and rates are natural numbers or integers without a
-- bound, but `int` is 64 bits wide where it is parsed and counted (Decimal, Functions). Floats are an
-- interface of which no law is used. `emit` prints `n` in `n + 1` rounds, each of which divides by 10.
-- `find_all` searches a line with its length and 1 as fuel, and each round drops a byte at least
-- (LogParser/Pairs/Fuel).
--
-- The collector's writer of CSV files writes what it has buffered as a whole or not at all.
--
-- Parameters. Which log files can be opened, whether the deployer gets a client, the largest length of
-- a slice, the HTTP client, the parsing of URLs, YAML, the encoding of events, the database
-- driver's failures and row ids, the failures of files, the client of the cluster, quantities of
-- resources, the printing of durations, and the parsing of times with a zone and of durations are
-- arguments of the definitions that use them. Within one round of the collector the cluster answers a
-- question always alike.
--
-- Not modelled: the flags of the programs, the lines that are only printed, the lines of the log
-- for requests that failed, bytes outside printable ASCII where slog quotes a text, the fields of
-- Kubernetes objects that depend on no argument, what the HTTP client does with idle connections, and the
-- functions in other languages.
pub mod Prelude
pub mod Decimal
pub mod Timestamp
pub mod Config
pub mod Store
pub mod Pool
pub mod Generator
pub mod LogParser
pub mod EventLogger
pub mod Functions
pub mod Collector
pub mod Deployer
pub mod LogLine
pub mod Receiver
pub mod WorkloadGenerator
