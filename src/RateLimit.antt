-- ===== src/RateLimit.antt =====
-- Rate limiting: the rules (internal/core/domain/rate_limits.go), how they are resolved, the
-- mirror that holds them, the limiters, and the middleware that charges a request.
pub mod Windows
pub mod Rule
pub mod Resolve
pub mod Mirror
pub mod Breaker
pub mod Charge
pub mod Stage
pub mod Shared
pub mod Local
pub mod Validate
