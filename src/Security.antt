-- ===== src/Security.antt =====
-- retrobridge/security.py: the rate limiter's two stores, and the middleware before them.
pub mod Store
pub mod Client
pub mod Tests
