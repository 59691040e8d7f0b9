-- ===== src/Store.antt =====
-- internal/store: the PostgreSQL tables and the transactions of the Go methods over them.
pub mod Amounts
pub mod Sql
pub mod Directory
pub mod Ledger
pub mod Balances
pub mod Nodes
pub mod NodeChecks
pub mod NodeTable
pub mod Secrets
pub mod Statements
pub mod Leads
pub mod Keeps
pub mod Keys
pub mod Registration
pub mod Federated
pub mod ReadOnly
pub mod Requests
pub mod Users
mod Examples
