-- ===== src/Ipvsdr.antt =====
-- provider/providers/ipvsdr: the ipvsdr provider of a load balancer.
pub mod Selector
pub mod Generate
pub mod Ensure
pub mod Status
pub mod Sync
pub mod Internal
pub mod Cleanup
pub mod Plugin
