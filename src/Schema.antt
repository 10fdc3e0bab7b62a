-- ===== src/Schema.antt =====
-- app/contracts/workflow_schema.py: the workflow's configuration, read from the front matter of WORKFLOW.md.
pub mod Yaml
pub mod Tests
pub mod Require
pub mod Planning
pub mod Implementation
pub mod Codex
pub mod Checks
pub mod Config
pub mod Ensures
pub mod Use
