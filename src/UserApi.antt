-- ===== src/UserApi.antt =====
-- internal/user and internal/auth: who makes a request, and the handlers of the user-facing API.
pub mod Sessions
pub mod Gate
pub mod Replies
pub mod Login
pub mod Account
pub mod Keys
pub mod Revoked
pub mod KeyAuth
pub mod LoggedIn
pub mod RoundTrip
pub mod Rekeyed
mod Examples
