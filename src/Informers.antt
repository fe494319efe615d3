-- ===== src/Informers.antt =====
-- pkg/informers
pub mod Factory
pub mod Generic
pub mod Networking
