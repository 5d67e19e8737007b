-- ===== src/Lib.antt =====
-- A model of the app-generation microservice: a service that takes a paid PRD over HTTP, queues a
-- build, lets subagents write a Flutter app that is analysed and repaired in a loop, and packages
-- the app behind a payment gate. All paths are from the repository's root.
--
-- Base holds what the components share: tests, lists, dicts, texts, Python's integers and JSON
-- values. Redis is the interface of the Redis server that the shared queue and the shared nonce
-- store use, a record of commands and of laws for what Redis documents of them; Tests.FakeRedis
-- implements it. The clock is a number of microseconds.
--
-- - Queue: src/service/queue.py. Queue.Memory is InMemoryBuildQueue, each method one step under its
--   lock; Queue.Redis is RedisBuildQueue, each method a sequence of commands between which other
--   workers or a crash may come.
--   Queue.Memory.Custody is what the queue promises for one job, as an abstract state machine.
-- - RateLimit: src/service/ratelimit.py. Jobs: src/service/jobs.py; Jobs.Json is the JSON form of a
--   record and what the buyer sees of it, Jobs.Shared the store in Redis. Worker:
--   src/service/worker.py over Queue.Memory and Jobs, with what others do between two heartbeats as
--   an argument; Worker.Loop is run_forever.
-- - App: src/service/app.py. Settings is what it reads from the environment, Documents its use of the
--   PRD, Accept is create_build, Preview is create_preview, Work is build_work and the thread of the
--   worker that runs it, Read the handlers that only read, Health is healthz, Agent the purchase over
--   MCP, Wiring what create_app makes of the environment. Accept calls RateLimit, Payments, Jobs and
--   Queue in the order of the code; Work runs Graph and then Artifacts, which is
--   src/service/artifacts.py. Pydantic's part of a validation is the record Pydantic, the file system
--   the record Files. What other requests do to the shared state before a receipt is read is an
--   argument.
-- - Mcp: src/service/mcp.py, over any tools. Usage: src/ports/usage.py.
-- - Payments: src/payments/. Gate is is_verified of x402.py; Eip3009 is eip3009.py, with Python's
--   and eth_account's functions in the record Libraries; Facilitator is facilitator.py, with the
--   HTTP client as a function from a world to a post's outcome; Replay is replay.py; Verifier is
--   X402Verifier of x402.py over any nonce store and facilitator; Challenge is human_amount and
--   challenge of x402.py.
-- - Prd: src/prd/schema.py. Analyzer: the diagnostics of src/ports/analyzer.py. Ownership:
--   src/ports/ownership.py, which agent a diagnostic goes to.
-- - Build: src/build/. Signing is signing.py, Pipeline is run_build of pipeline.py with the scaffold
--   of scaffold.py; what the machine answers is the record Machine, and what the call does outside
--   is a list of effects.
-- - Graph: src/graph/. State is state.py, Nodes, Qa, Packaging and Router are nodes.py, and Run is
--   builder.py with LangGraph's run of the graph. A node is a function from the state to the state
--   with the node's update merged in, `none` where a call raises; the generator, the analyzer, the
--   test runner, the test builders and the conformance checks are the record Agents, which answers
--   from a world it may change. The router of Graph calls Ownership, the packaging node calls Build,
--   and Build asks the gate of Payments.
--
-- LangGraph's recursion limit is the only fuel of the model, and it is the program's own:
-- `recursion_limit` steps, 25 where nothing else is configured. A round of the loop takes at most
-- three steps, and at most `max_repairs + 1` rounds come before planning and packaging are counted.
-- The facilitator's retries are a loop on their number.
--
-- Not modelled: of src/service/app.py the manifest, the landing pages, the list of tools of
-- mcp_endpoint and the choice of the stores in create_app; the worker's threads and signals; the code generators, test builders and
-- conformance checks of src/ports/, which work on generated text; scripts, evaluations and
-- deployment.
-- Where the model is narrower than the code: human_amount is the code's for amounts below 10 ^ 28,
-- which Decimal divides exactly; a negative price or clock skew in the environment is taken as 0; what
-- other threads do between the save of a new record and its push is not represented; and the sharing
-- of live job objects by the in-memory store is left out.
pub mod Base
pub mod Redis
pub mod Analyzer
pub mod App
pub mod Usage
pub mod Mcp
pub mod Artifacts
pub mod Ownership
pub mod Prd
pub mod Payments
pub mod Build
pub mod Graph
pub mod Tests
pub mod Queue
pub mod RateLimit
pub mod Jobs
pub mod Worker
