-- ===== src/Lib.antt =====
-- A verification library for rkcockpit, a web console that manages boards over SSH and ADB. Its host
-- part (host/) runs commands on devices, moves files, samples their load and keeps logs; the portal
-- (portal/) serves it over HTTP. Every device command passes the transport scheduler, its output is
-- kept in an output buffer that the browser polls, and uploads reserve disk before they are read.
--
-- Which file models what:
-- - Common and its children: library names passed on, lists over the native numbers, dictionaries
--   keyed by text (insertion order and replacement in place, as in Python's dict), results that may
--   be raised errors.
-- - Scheduler: host/transport/scheduler.py. State is `TransportScheduler` with its counters; ClassQueue
--   is one entry of `_queues` with its `_round_robin`; Grant is `_can_grant_locked` and
--   `_grant_locked`; Calls are `acquire`, `Lease.release`, `_release`, `_remove_waiter_locked` and
--   `remove_device`; Run is the scheduler under any order of its callers, one event for each stretch
--   of code that runs under the condition's lock. Sound is the invariant. The `granted` and `error`
--   flags of the waiter objects are the lists `held` and `cancelled` of the state. An event may give
--   any waiter and any clock reading, also those that no caller would have.
-- - OutputBuffer: host/task/output_buffer.py. The incremental UTF-8 decoder of the standard library
--   is a parameter, of which only is used that it withholds at most the bytes it was given.
-- - ExecJob: host/task/execjob.py, on OutputBuffer. `admit` is the locked part of `run`, the functions
--   that `change` takes are the locked stretches of the job's threads, and Slots has any order of them
--   and of other stores that share the module's semaphore.
-- - Transfer: host/task/transfer.py. `_jobs` and `_order` are lists of the state; `trim` is
--   `_trim_locked`; `returned`, `has_raised` and `settle` are the locked stretches of `_run`.
-- - Auth: host/core/auth.py. HMAC, `int` and the printing of numbers are parameters; used is that a
--   digest is ASCII, and that a printed number has no dot and is read back. `compare_digest` raises where
--   Python's does.
-- - Groups: host/device/groups.py. `str.strip` is a parameter; `load` is the constructor with `_load`, and
--   the field `saved` is what `_save` wrote since.
-- - Metrics: host/core/metrics.py. Names is what calls do to the registry, Reports is `snapshot`.
-- - Portal: portal/. Server is the worker pool of portal/server.py, with the metrics that it sets; Sse
--   is the hub of portal/sse.py, its connections by their identity.
-- - Spool: host/task/spool.py. The disk's free space is an argument of each call.
-- - Deploy: host/task/deployjob.py. Plans is the check of a request, Stages and Runs are `_run` with
--   `_upload` and `_run_exec`, Registry is `DeployJobStore` with its plans, jobs and history. The
--   transport and the other stores answer as the caller says. Paths is `os.path.normpath`, and Dests what
--   the check of destinations lets through.
-- - LogCenter: host/service/logcenter.py. `_LineBuffer` and the two ways in which a follower polls: one
--   round of `_poll_file` and of `_poll_snapshot`. Center is `LogCenter` itself, its followers by the
--   number under which they started; which sources of a device can be read is given with each request.
-- - Agent: host/api/handlers/agent.py and agent_stream.py. A session is its history with the counts
--   that are shown; Chats is `_chat_locked`, Stream is `_run_loop`, Requests is `_stream_locked`, Sessions
--   is `_SESSIONS` under any requests, and Histories what they leave of the histories. The language model,
--   the tools and the clock answer as the caller says.
-- - Devices: host/device/store.py and host/device/keys.py. Edits is how a request makes or changes a
--   device, Saving is the file and the calls of `DeviceStore`, Keys is `KeyStore`, Calls is both under
--   any calls, with `keys_delete` of host/api/handlers/keys.py as one step.
-- - PathGuard: host/core/pathguard.py. Names of a path, and `DirRoot` on the kernel's descriptors; the
--   kernel's calls are a record, of which only is used which descriptors they open and close.
-- - KnownHosts: host/transport/ssh_known_hosts.py. The file is its lines, of which a type with a line feed
--   makes two; Pins is `pin_key` called any
--   number of times.
-- - Audit: host/audit/recorder.py. The recorder under any order of callers, writer and `close`, one
--   step for each stretch under a lock; each disk write succeeds or not as the step says. History is
--   `_iter_events`, `query` and `stats` on the ring and on what is read of the days' files, with `query`
--   of host/service/audit.py.
--
-- Bounds and fuel: Python's integers have no bound and are numbers here; differences that may be
-- negative in Python are moved across the comparison. The granting loop runs on
-- `global_limit - active` rounds, which are enough since each round takes a slot. Trimming a history
-- runs on its length, which is enough since each round of the loop shortens it. A chat has the eight
-- rounds of the source. Clocks count whole milliseconds,
-- and the times of files nanoseconds.
--
-- Not modelled: the statistics of the scheduler but for its background total, which round floating-
-- point numbers; the clearing of stale upload files; other requests while a chat waits for the
-- language model, and a stream's thread that runs on when its request has ended; the journal's follower; the dates of a query's window and the CSV export of the
-- audit log; rows of devices.json without one of their fields; `local_components` and pins of host
-- keys that run at the same time; the sampler and the parsers of device output; the bodies of the
-- other HTTP handlers and the transports, which are mostly input and output; and the browser client.
pub mod Common
pub mod Scheduler
pub mod OutputBuffer
pub mod Spool
pub mod ExecJob
pub mod Transfer
pub mod Auth
pub mod Groups
pub mod LogCenter
pub mod Deploy
pub mod Agent
pub mod Audit
pub mod Devices
pub mod PathGuard
pub mod KnownHosts
pub mod Metrics
pub mod Portal
