-- ===== src/Graph.antt =====
-- src/graph/: the build loop, plan -> genui -> logic -> qa -> package with its repair edges.
pub mod State
pub mod Nodes
pub mod Qa
pub mod Packaging
pub mod Router
pub mod Run
