-- ===== src/NodeSource.antt =====
-- internal/nodesource/nodesource.go.
pub mod Expand
pub mod Template
pub mod Merge
pub mod ApiNodes
mod Examples
