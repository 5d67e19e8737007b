-- ===== src/Queue.antt =====
-- src/service/queue.py: the queue of paid builds.
pub mod Memory
pub mod Redis
