-- ===== src/Tests.antt =====
-- Concrete inputs: a server, a PRD, agents, requests, queues and payments.
pub mod FakeRedis
pub mod Documents
pub mod Queues
pub mod Payments
pub mod Builds
pub mod Graphs
pub mod Service
pub mod Apps
pub mod Works
pub mod Records
pub mod Deployments
