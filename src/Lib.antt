-- ===== src/Lib.antt =====
-- The task queue of ai-agents. An orchestrator enqueues tasks for agents, workers take them from a
-- queue in Redis and store their results, and a web UI submits requests and shows the threads. A
-- thread is a conversation: its lock admits one sequential task at a time, tasks of a group run side
-- by side. This library is about the Go code that keeps these promises.
--
-- The parts, and how the files correspond to them:
--   Prelude      the shared names: tests, lists, texts and integers over the native numbers.
--   Redis        the server that everything shares. Keys has the key names of tasklib/client.go,
--                Commands the commands that the code sends and what each does to a Keyspace, Client the
--                methods' results and errors, Triple and Reads the rules by which methods are proved.
--   Types        the entities of tasklib (tasks.go, threads.go, events.go, tokens.go).
--   Locks        the thread lock (LockThread, UnlockThread, the Lua script acquireLockScript,
--                isTaskActive) and the request lock.
--   Events       PushEvent, PushThreadEvent and PushSystemEvent of tasklib/events.go.
--   Enqueue      Enqueue and EnqueueGroup of tasklib/tasks.go.
--   History      the histories of messages and events (GetThreadHistory, its two tails, parseMessages,
--                AppendMessage, getEvents).
--   Waiting      WaitTask, GroupWait, CancelTask, updateThreadStatus and UpdateThread.
--   Requeue      RequeueStale.
--   Tasks        GetTask and GetTaskResult.
--   Listing      ListTasks of tasklib/tasks.go in Tasks and ListThreads of tasklib/threads.go in
--                Threads; the other children hold theorems.
--   Threads      DiscoverDescendants in Descendants; CreateThread, GetThread, DeleteThreadKnown,
--                SetThreadTTL and the entries of active_tasks in State.
--   Worker       processOneTask and the main loop of cmd/worker/main.go, and PersistTokenStats of
--                tasklib/tokens.go.
--   Workers      tasklib/workers.go: heartbeats in Beats, GetWorkerStats in Stats.
--   Queue        what the lists of a worker stand for: the backlog of its tasks.
--   Tokens       tasklib/tokens.go: the lines of an output in Lines, the parsers in Agents, the providers
--                in Providers, the counters in Counters; the other children hold theorems.
--   Web          the rate limiter and the checks of requests of
--                cmd/webui/internal/api/middleware.go; of cmd/webui/internal/request, Submit
--                in Submit, the output of a process in Stream, its run in Background.
--   Tests        a concrete server and codec, and the theorems at inputs.
--
-- A method of the client is a function from the state of the server to a result and the next state.
-- The server is a parameter, the record Redis: a request, which may be a pipeline, is answered or not;
-- it executes a prefix of its commands, and all of them if it is answered. So a failed request may
-- still have done anything from nothing to everything, and a theorem without a hypothesis on the
-- server holds for every pattern of failures. `Up r` says that every request is answered.
-- encoding/json is the record Codec, the clock, the random source and the settings of a client are the
-- record Host, the agent process and Go's formatting are the record World. A waiting loop is given as
-- the list of its polls: what other clients did to the server before the poll, and whether the
-- deadline is past and the context is done after it. The loop over batches of a history and the walk
-- over the descendants run on fuel: the length of the list, as each batch takes a message off, and one
-- more than the number of threads, as each is queued once; the theorems show that both are enough.
--
-- A request on a context that is done sends nothing: `cut_off` is the server as such a call sees it.
-- The last requests of a cancelled WaitTask are of that kind; any other request may find its context
-- done, which is one of the ways not to be answered.
--
-- What the model leaves out: texts are sequences of code points; a negative tail of a history, or
-- limit of events, is read as 0, as the code treats it; INCR and HINCRBY act on texts by a parameter
-- of the server; time to live is stored, but no key expires by itself, which is among what other
-- clients do. The keys that SCAN and KEYS find are a parameter.
-- A read that fails inside a pipeline of reads gives the empty text, as the code drops its error.
-- Not modelled are the monitor and its alerts, the HTTP handlers, templates,
-- the command line and the entry points, which are presentation, glue or start-up.
mod Prelude
pub mod Queue
pub mod Redis
pub mod Types
pub mod Events
pub mod Listing
pub mod Locks
pub mod Enqueue
pub mod History
pub mod Threads
pub mod Tokens
pub mod Requeue
pub mod Waiting
pub mod Tasks
pub mod Worker
pub mod Workers
pub mod Web
mod Tests
