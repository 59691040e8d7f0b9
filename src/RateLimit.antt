-- ===== src/RateLimit.antt =====
-- internal/ratelimit: token buckets, concurrency slots, the validation of configured limits, and
-- the middleware that joins them.
pub mod Tokens
pub mod Limiter
pub mod Concurrency
pub mod Config
pub mod Middleware
mod Examples
