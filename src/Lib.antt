-- ===== src/Lib.antt =====
-- Models of ClawWork, a chat application that runs its tasks on a remote gateway.
--
-- The program has three parts. The phone (apps/mobile) talks to the API (apps/mobile-api), which
-- keeps users, sessions, tasks, files and results in a database and in an object store. The API
-- hands a task to the adapter (apps/openclaw-adapter), which runs it on the gateway and publishes
-- its events. Events go back as server-sent events: from the adapter's broker to the API, which
-- stores them, and from the API's stream controller to the phone.
--
-- Which file models which part:
--   Prelude      lists, texts, dictionaries and tests that the other files share
--   Event        packages/shared-types: the events of a task and the announced results
--   Broker       apps/openclaw-adapter/src/event-broker.ts, the whole class TaskEventBroker.
--                A method is a function of its name on the record of the class's maps. A listener
--                is the number of a callback, a timer the handle that the runtime gives; `fire` is
--                the runtime's call of a timer. Replay compares the history with the log of all
--                that was published, Timers is about the clean-up
--   Sse          the text format: writeSseEvent of apps/openclaw-adapter/src/server.ts, and the
--                loop that reads it in apps/mobile/src/services/stream.ts and in
--                apps/mobile-api/src/tasks/tasks.service.ts
--   EventHub     apps/mobile-api/src/stream/task-event-hub.ts: the listeners of one process; what it
--                sends to the others is a list, what it gets from them an argument
--   TaskStream   apps/mobile-api/src/stream/task-stream.controller.ts: the local variables of one
--                stream as a record, each callback as a function on it
--   Tasks        apps/mobile-api/src/tasks/tasks.service.ts over the tables of packages/database:
--                Filename is sanitizeFilename, Storage the uploads, Storage/Archive the download
--                and the archive of results, Persist the log of events (persistTaskEvent,
--                prepareTaskEvent, failTask) with what hangs on it: Persist/Cases is the
--                case analysis that its proofs share. Enqueue is the creation of tasks
--                (enqueueTask, createFollowUp, regenerate) on the tables and on the counters of
--                AbuseProtection. Dispatch is the life cycle: processQueuedTask and dispatchTask,
--                with Dispatch/Stop for cancelTask, Dispatch/Restart for onModuleInit and
--                Dispatch/Relay for relayAdapterEvents. A relay is the flag of its controller, a
--                stream what its reads give. Dispatch/Safety lists the writes to the table of tasks
--                as steps in any order, and Dispatch/Overlap is two transactions that overlap
--   TaskQueue    apps/mobile-api/src/queue/task-queue.service.ts over the job queue's calls, which are
--                a parameter with laws
--   Gateway      apps/openclaw-adapter/src: error-map.ts and what gateway-client.ts makes of replies
--                and snapshots; Gateway/Persistent is persistent-gateway-client.ts. An ActiveTask
--                object is named by its task, and the calls of handlers, promises and the socket are
--                a list in the state. Gateway/Persistent/Runs has every input as a step.
--                Gateway/OneShot is executeGatewayTask of gateway-client.ts, Gateway/Input is
--                gateway-input.ts
--   Auth         apps/mobile-api/src/auth/auth.service.ts, with the hashes and the checks of
--                packages/auth as arguments
--   TaskRouter   apps/task-router/src/rules.ts
--   TaskStore    apps/mobile/src/store/taskStore.ts: Extract, Actions and History are the methods,
--                `perform` a call with its `emit`
--   AbuseProtection  apps/mobile-api/src/security/abuse-protection.service.ts: the counters, with
--                Minute on the rate limit, Day and Release on the daily tasks
--
-- A text is the list of its UTF-16 code units. A JSON value is either the data type of Event or,
-- on the wire, its text: `JSON.stringify` and `JSON.parse` are not modelled. The answers of the
-- object store, of the network and of the random generator are arguments. A transaction that
-- takes the advisory lock of the user (uploads, archives, the creation of tasks) is one step. That of
-- persistTaskEvent takes no such lock: read_task and write_event are its halves, between which
-- Dispatch/Safety and Dispatch/Overlap let other steps come. persist_task_event is the call where no
-- other transaction for the task comes between, and the theorems on it alone are about such calls.
-- An update by `updateMany` with a condition is one step of the database. That the database fails
-- is modelled in cancelTask alone.
--
-- In the log, a result that an event announces is archived before the transaction looks at the
-- task, as in the source; the hub and the notifications are lists in the state, to which a call
-- adds.
--
-- The reading loop runs on fuel, one more than the length of its buffer; each round removes at
-- least two units, so that the fuel never ends (Sse/Frames). `decimal` runs on fuel n + 1 for n,
-- which bounds the number of digits.
--
-- Not modelled: the screens of the phone, the configuration, the client libraries of the database,
-- of Redis and of the object store, and the gateway itself. extractArtifactResult, which finds an
-- artifact in a frame, is a field of the frame. Of the persistent client, `execute` with its fallback
-- to executeGatewayTask and the table of the fallback runs are left out.
pub mod Prelude
pub mod Event
pub mod Broker
pub mod Sse
pub mod TaskStream
pub mod Tasks
pub mod TaskStore
pub mod AbuseProtection
pub mod TaskRouter
pub mod EventHub
pub mod TaskQueue
pub mod Gateway
pub mod Auth
