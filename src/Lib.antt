-- ===== src/Lib.antt =====
-- A model of the core logic of the operations plane (nancy-man): how a change of configuration
-- lives and is applied, what a user of the database explorer can be shown, and how the monitor
-- decides on the health of the machine.
--
-- The parts and how they interact. An operator drafts a change of the variables of an application
-- in the API (apps/api), which records the life of the change as a chain of events. The agent on
-- the host (apps/config-agent) applies a staged change: it takes locks, captures a snapshot, writes
-- the sources, runs actions and health checks, and goes back to the snapshot when a step fails.
-- The SQL worker (apps/sql-worker) reads tables for the database explorer: it builds the text of a
-- query from untrusted requests, over columns that the policy of packages/security has classified
-- and whose values it masks. The collector of the web server (apps/web) evaluates samples of
-- monitors, and the notifier sends the alerts.
--
-- The files and the code.
--   Base (Tests, Lists, Texts, Results): Boolean tests, lists over native numbers, texts as lists
--     of UTF-16 code units, and results, in which a thrown error is a value.
--   Change: apps/api/src/modules/variables/changeStateMachine.ts. State has the states and the
--     legal transitions, Checked is validateSnapshot, Transition is transitionChange, Supersede is
--     createSupersedingDraft; History, Checked/Laws, Transition/Effects, Transition/Validity and
--     Supersede/Effects hold theorems. Date.parse is a parameter, of which the code asks only
--     whether its result is finite.
--   Apply: apps/config-agent/src/changes/applyStateMachine.ts (Machine) and applyCoordinator.ts.
--     Model has the data, the calls of the dependencies and the variables of a run; Writes is
--     sourceOperations; Steps is performApply in the order of the source, its outer try, catch and
--     finally included; Coordinator is apply. A dependency is a function of all earlier calls of
--     the run that may answer or throw anything. Grouping, Plain, Quiet, Meets, Conditions,
--     Safety and Rollback hold the reasoning about writes and runs. Journal relates the events of a
--     run to the state machine of Change.
--   Adapter: apps/config-agent/src/adapters/types.ts, how the agent writes a value into a text of
--     assignments (encodedValue) and reads it (parseValue).
--   Explorer: apps/sql-worker/src/explorer/identifier.ts (Identifier), filterSql.ts (Filter for
--     buildFilterSql, Query for buildRowsQuery) and the column type of
--     packages/contracts/src/databaseExplorer.ts (Columns). The folders Filter and Query hold
--     theorems.
--   Security: packages/security/src/database/columnPolicy.ts. Search has the string searches, Words
--     the tests for tokens, Tables the lists of the policy, Classify is classifyColumn, and Mask is
--     maskPiiValue. Lower case (toLowerCase) is a parameter.
--   Monitor: apps/web/src/server/collector/statusMachine.ts. Sample has the samples, Window the
--     runs of trailing samples, Resources and Infrastructure the decisions on levels, Choice the
--     order of candidates, and Evaluate is evaluateMonitor; Recovery and Transitions hold theorems.
--     Floating-point numbers and the order of names (localeCompare) are parameters.
--   Notifier: apps/notifier/src/policy/alertPolicy.ts (Policy) and outbox/scheduleAlerts.ts
--     (Schedule). The printing of a date up to its minute is a parameter.
--   Wire: apps/sql-worker/src/protocol/framing.ts and packages/config-contracts/src/framing.ts, the
--     frames in which the API talks to the SQL worker and to the agent. Bytes has the header of four
--     bytes, Frames both encoders and decoders. JSON and its bytes are parameters. Stream has what
--     chunks do to the decoder, Settle how a call of push ends.
--   Cursor: apps/sql-worker/src/explorer/cursorCodec.ts. Json is jsonStringByteLength, beside the
--     string that JSON.stringify writes; Budget is estimateRowRefPlaintextBytes, beside the payload
--     that is encrypted; Value has the validators, of a type of JSON values; Codec is seal, open,
--     encodeCursor and decodeCursor. AES-256-GCM with the derivation of its key, base64url and the
--     JSON of a cursor are parameters. The folders Json, Budget and Codec hold theorems.
--   Spool: packages/telemetry-sdk/src/serverSpool.ts, enqueue and flush over the records of the file.
--     The size of the text of a record, localeCompare and the jitter of delays are parameters. Order,
--     Room, Evict and Flush hold theorems.
--   The Tests file of each folder runs the code on concrete values.
--
-- Bounds and fuel. Versions, sequences and indices are natural numbers, with the bound of safe
-- integers written out where the code tests it. Every loop is structural recursion; the decimal
-- digits of n have n + 1 rounds of fuel, one more than a number below n + 1 can need. The loop of a
-- frame decoder has one round more than there are bytes, and each round but the last takes four
-- bytes or more. The rooms that the estimate of a row reference hands on may fall below 0 in the
-- code and stop at 0 in the model: nothing fits into either.
--
-- What is not modelled. Network, files, SQL that is executed, React and the command
-- line are left out, as are the type tests of values that the types of the model rule out. Calls
-- of the coordinator follow one another, so neither the promise that two calls share nor the
-- interleaving of two runs is modelled. The reports of errors that the code sends to telemetry are
-- left out.
-- Of the adapters, the search for the end of a statement and the replacement of bytes are left out. Of
-- the spool, the lock, the quarantine and the tests of the shape of records are left out; of the
-- cursor codec, so are the reviving of tagged claims and the alphabet of the master key.
pub mod Adapter
pub mod Apply
pub mod Base
pub mod Change
pub mod Cursor
pub mod Explorer
pub mod Monitor
pub mod Notifier
pub mod Security
pub mod Spool
pub mod Wire
