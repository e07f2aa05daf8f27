-- ===== src/Tools.antt =====
-- src/incidentpilot/tools: the gateway that every agent tool call passes.
pub mod SqlGuard
pub mod Redaction
pub mod Input
pub mod Gateway
