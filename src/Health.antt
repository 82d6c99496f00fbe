-- ===== src/Health.antt =====
-- master/internal/health and master/internal/store/health.go: alert rules, their evaluation against a
-- sample, and the cache of samples.
pub mod Alerts
pub mod Cache
mod Tests
