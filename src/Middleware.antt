-- ===== src/Middleware.antt =====
-- client/http/middleware: what wraps every HTTP call of an endpoint.
pub mod Defs
pub mod Circuit
pub mod Collector
pub mod Vectors
pub mod Cleanup
pub mod Metrics
pub mod Tracing
