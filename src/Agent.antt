-- ===== src/Agent.antt =====
-- src/incidentpilot/agent: the evidence gates and the nodes of the investigation graph.
pub mod Evidence
pub mod State
pub mod Investigation
pub mod Patching
pub mod Persisted
pub mod Reasoning
pub mod Progress
