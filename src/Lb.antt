-- ===== src/Lb.antt =====
-- client/http/lb/lb.go: the weighted random load balancer.
pub mod Weight
pub mod Select
pub mod Draws
pub mod Share
pub mod Tests
pub mod Always
