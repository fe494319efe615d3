-- ===== src/Nginx.antt =====
-- proxy/proxies/nginx: the nginx proxy of a load balancer.
pub mod Selector
pub mod Generate
pub mod Ensure
pub mod ConfigMaps
pub mod Backend
pub mod Status
pub mod Sync
pub mod Plugin
