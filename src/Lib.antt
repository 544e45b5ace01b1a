-- ===== src/Lib.antt =====
-- The backend of the Indian SIM SMS gateway: an SMS that an edge node reports is put into a
-- bounded queue; workers hand it to Telegram, and to email as the fallback; after its last retry
-- it goes to the Dead Letter Office, from which an operator can put it back. A health monitor
-- evaluates the nodes' telemetry and the queue's depth, and raises alerts with the CTO agent,
-- which decides on a severity and an action and posts them to a webhook. A script measures the
-- queue, or a running gateway, under load.
--
-- Parts:
--   Message: the message and its enumerations, of backend/message_queue.py.
--   Queue: the class MessageQueue of the same file. State has its fields, constructor and
--     registrations; Step has `enqueue` and `_worker`, cut at its awaits; Run has `start`,
--     `stop` and the interleavings. Flow and Conservation, Tasks and Drain, Retries and
--     Exhaustion, Waiting and Shutdown, Energy, Spending and Termination, Frame, Steady, Order,
--     Dispatch, Rounds, Balance, Captures and Stuck are proofs; Encryption has the Fernet
--     methods and their round trip.
--   DeadLetter: the class DeadLetterOffice of backend/dead_letter_office.py. Letter has the
--     records and their JSON, Redis the client as a record of operations, Office the capture,
--     the lookups and the removal, Recovery the retry and the purges. Memory, Purge and
--     Failover are proofs, and Encoded, Unordered, Backends, Removals and Client those that
--     compare the two backends.
--   CtoAgent: the class CTOAgent of backend/cto_agent.py. Incident has its data, Agent its
--     methods, Clients its HTTP client; Cooldown, History, Newest and Triage are proofs.
--   Health: the class HealthMonitor of backend/health_monitor.py. Node has the telemetry,
--     Monitor the evaluation, Report the report and the check loop, whose alert callback is
--     `trigger_alert` of the agent in the application, and Watch the loop's task with `start`
--     and `stop`; Status, Issues, Alarm and Silence are proofs.
--   Telegram: the class TelegramDispatcher of backend/telegram_dispatcher.py, in Dispatcher,
--     and its HTTP client in Clients; Sending, Budget, Counting and Formatting are proofs.
--   HttpClient: the pooled client that the agent and the dispatcher create and close; its
--     proofs are in Laws.
--   Settings: backend/config.py.
--   Gateway: the application, backend/main.py. Requests has the request and response models and
--     the global components, Startup and Shutdown the two halves of the lifespan, Endpoints the
--     handlers; Wiring runs the queue's steps with the two dispatchers' `send` as its
--     callbacks, Filing with the office's `capture`, and Service with requests between them.
--     Launch, Recovering, Reporting, Release, Delivery, Filing and Serving are proofs.
--   Email: the class EmailDispatcher of backend/email_dispatcher.py; its proofs are in Laws and
--     Counting.
--   Benchmark: scripts/benchmark.py. Result has the class BenchmarkResult, Payload the
--     generated messages, Simulation the run against a queue of Queue, Live the run against a
--     server, Report and Export what is printed and written. Rank, Percentiles, Accounting,
--     Capacity and Ranking are proofs.
--   Prelude: Python's integers, strings, dicts, JSON values, times and `sorted`, and the
--     helpers that the parts share. Tests: runs and concrete instances.
--
-- How the code is read: methods are functions of the object's state, with the results of awaits
-- (a consumer's answer, a reply of the Bot API, whether an SMTP call returns) and the times that
-- they read as arguments. What Python raises is `none` or a constructor. In the queue each await
-- is a phase of a worker, and a list of events is an interleaving of producers, workers and the
-- caller of `start` and `stop`; an event that cannot happen in a state is passed over. The
-- monitor's task and the `close` of an HTTP client are cut at their awaits in the same way. The
-- queue's consumers are names there: what they answer is in the events. Where the dispatchers and
-- the office are joined to the queue, each call is one step, at the event at which the worker's
-- await of it ends: the calls of two workers are not cut at their own awaits there, which the
-- counters of sent and captured messages do not depend on. Times are counted in ticks of a third
-- of a microsecond, so that a thirtieth of a second is a whole number; quotients of floats are
-- compared by products, or kept as the pair of their terms, without their rounding.
--
-- Bounds: the retry loops recurse on the number of attempts left, which starts at `max_retries`,
-- and the other functions on lists. Only the decimal digits of a number n use fuel, n + 1, which
-- is more than it has digits. The queue's limit, the retry limits and the settings are arbitrary
-- integers, also zero and negative ones.
--
-- Parameters: the Redis client with the documented effect of the calls that answer and of time
-- that goes by, EXPIRE included, Fernet, MD5, HMAC, the text of a float and of a JSON value, the
-- rounded percentage of a report, and what the module random draws. Strings are lists of code
-- points; `lower` changes the letters A to Z.
--
-- Not modelled: log messages; the routing and parsing of FastAPI; how pydantic reads the settings
-- from the environment; the loss of an item when a cancellation meets `asyncio.wait_for`; a
-- `start` of the queue in the turn of the event loop in which a `stop` gathers the cancelled
-- workers, which that `stop` then drops from the list; entries of Redis that another program
-- wrote with values of other types; the progress bars of the benchmark, and its semaphore, which
-- only restricts the orders in which its producers end (with a concurrency of 0 none of them
-- ends); the firmware, the setup script and the web page.
pub mod Prelude
pub mod HttpClient
pub mod Message
pub mod Benchmark
pub mod Queue
pub mod DeadLetter
pub mod CtoAgent
pub mod Health
pub mod Telegram
pub mod Email
pub mod Settings
pub mod Gateway
pub mod Tests
