-- ===== src/Instancer.antt =====
-- client/sd/instancer: the instances of a service, as consul reports them.
pub mod Cache
pub mod Entries
pub mod Loop
pub mod Tests
