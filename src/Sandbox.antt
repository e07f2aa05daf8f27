-- ===== src/Sandbox.antt =====
-- src/incidentpilot/sandbox/manager.py: Paths is sensitive_path and validate_patch_path, Files the files
-- of a workspace and their digests, Patch patch_paths, workspace_snapshot and apply_patch, Workspace the
-- SandboxManager. What they guarantee: Inside for paths, Changes and Exact for patches, Isolated for
-- test runs, Clean for new workspaces.
pub mod Paths
pub mod Inside
pub mod Files
pub mod Patch
pub mod Changes
pub mod Exact
pub mod Workspace
pub mod Isolated
pub mod Clean
