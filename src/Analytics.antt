-- ===== src/Analytics.antt =====
-- Anonymous usage reporting (analytics.go): what is said of the host, how each value is cleaned, and
-- when an event is sent.
pub mod Dimension
pub mod Host
pub mod Report
mod Tests
