-- ===== src/Providers.antt =====
-- The providers' side of the gateway: admission.py, stream_recovery.py and core/rate_limit.py.
pub mod Execution
pub mod Gate
pub mod Attempt
pub mod RateLimit
pub mod Holdback
pub mod Tests
