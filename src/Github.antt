-- ===== src/Github.antt =====
-- src/incidentpilot/github/integration.py: Remote is GitHub's REST API, Create the pull request on
-- GitHub, Client the object around it; Authorized and Approved hold what they guarantee.
pub mod Remote
pub mod Create
pub mod Client
pub mod Authorized
pub mod Approved
