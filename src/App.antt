-- ===== src/App.antt =====
-- src/service/app.py: the HTTP service, which wires payment, the stores, the queue and the build
-- graph together.
pub mod Settings
pub mod Documents
pub mod Accept
pub mod Read
pub mod Stored
pub mod Health
pub mod Wiring
pub mod Agent
pub mod Preview
pub mod Work
