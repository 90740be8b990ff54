-- ===== src/Lib.antt =====
-- A model of the query service for Microsoft Access databases, and theorems on it.
--
-- The service opens .mdb files through ODBC, keeps the connections in a pool by alias, and answers
-- table queries and read-only SQL over them. A request names an alias; the store finds the
-- connection in the pool and the column cache of the alias, and the query functions check the
-- names of columns against the cache, write the statement, send it and turn the rows into JSON
-- values. The list of tables comes from the ODBC catalog. A configuration names the databases, by
-- path or by a pattern; a watcher registers files that appear later. The service runs under the
-- Windows service manager, behind a listener that a tunnel provider gives, and replaces its own
-- binary. Three programs stand beside it: the command, a probe and an integration test.
--
-- The files:
--   Base: Boolean tests, lists, Option, integers of 64 bits and maps, over the native numbers.
--   Strings: what the source uses of Go's packages strings, strconv and fmt. A text is the list of
--     its bytes. White space is that of Unicode, and so is ToUpper where its result is of ASCII;
--     ToLower, EqualFold and digits are those of ASCII.
--   Mdb/Errors, Mdb/Exec: (value, error) results and the state that a request passes on.
--   Mdb/Sql: stripSQLComments, validateReadOnlySQL and enforceTopN of internal/mdb/query.go. The
--     loop over block comments runs on the length of the text as fuel.
--   Mdb/Query: the rest of internal/mdb/query.go. QueryTable is run_query_table, ExecuteSQL is
--     run_execute_sql.
--   Mdb/Types: internal/mdb/types.go, with base64, UTF-8 and RFC 3339 in Mdb/Types/Encoding.
--   Mdb/Schema, Mdb/Listing: internal/mdb/schema.go, the column cache and ListTables.
--   Mdb/Driver: internal/mdb/driver_windows.go. Mdb/Probe: internal/mdb/probe.go.
--   Mdb/Catalog: internal/mdb/catalog_windows.go, as a sequence of calls of odbc32.dll, whose
--     answers may depend on all the calls before. A defer is a call behind its body. The fetch loop
--     takes the rounds as fuel; more rounds than the catalog has rows are enough.
--   Mdb/Pool, Mdb/Store: internal/mdb/pool.go and internal/mdb/store.go. Mdb/Pool/Abstract is what
--     the pool promises, a state for each alias, and Mdb/Pool/Refining relates the two.
--   Config: internal/config/config.go, and in Config/Glob and Config/Expand internal/config/glob.go.
--     Load is Config.Load.load. Paths are those of Windows.
--   Watcher: internal/watcher/watcher.go. The registrar is an interface with laws, which
--     Watcher/Registrars gives for the pool; the loop over file events is a step relation with a
--     clock, in which no armed timer is passed by. Watcher/Running is the loop over polls and
--     flushes, Watcher/Racing the two goroutines, step by step.
--   Api: internal/api. A handler is a function from a request and the state to a response and a
--     state; Api.Chain.handler is Server.Handler, in the order of its middlewares. SHA-256, package
--     net, JSON decoding and the token bucket of golang.org/x/time/rate are parameters; the routes
--     of http.ServeMux are written out for clean paths.
--   Updater: internal/updater. Updater/Swap is the replacement of the binary on a disk whose calls
--     may fail, Updater/Develop the check of the develop channel around it, Updater/Release that of
--     the release channel and the loop of Start, Updater/Fetching the download and zip.go.
--   Tunnel: internal/tunnel. The build tag tsnet is an argument of New.
--   Service: internal/winservice. Service.antt is how run puts the other parts together,
--     Service/Lifecycle run and Stop on what a Program holds, Service/Manager the installation with
--     its recovery actions, Service/Access the runs of icacls.
--   Command: cmd/mdbapi/main.go, with checkCmd in Command/Check and the keys in Command/Keys.
--   Integration: cmd/integration/main.go. waitForHealth takes the rounds as fuel; one more than the
--     pauses of 200 milliseconds that fit in the timeout, rounded up, are enough.
--     Integration/Served is its client over the handler of Api, where JSON is a parameter;
--     Integration/Program is main.
--   Probing: cmd/probe/main.go.
-- In each, the modules named Tests run the definitions on concrete inputs.
--
-- State: a request is a function from the session (the column cache and the statements sent so
-- far) to a result and a new session. A map is an association list; the order of its entries
-- stands for the order in which Go's range walks it, so a theorem for every list holds for every
-- order. Operations that hold a lock from start to end are one step.
--
-- Parameters: database/sql with its driver is the record Db, whose answer may depend on all the
-- statements sent before. The ODBC driver list of the registry, sql.Open and Ping are the record
-- Odbc. The catalog call of the store and os.Stat are functions. The record FilePath holds the
-- functions of path/filepath whose results depend on the system, and the file system; the record
-- System adds the YAML parser, the environment and the address parsers of net. The service manager
-- and icacls are states whose calls may fail.
--
-- Not modelled: the logs but for the line of a request, what the commands print, what database/sql
-- does when a context ends, the goroutines of the service, which are only listed, and the files for
-- other platforms than Windows.
mod Base
pub mod Strings
pub mod Mdb
pub mod Config
pub mod Watcher
pub mod Api
pub mod Updater
pub mod Service
pub mod Command
pub mod Integration
pub mod Probing
pub mod Tunnel
