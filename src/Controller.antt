-- ===== src/Controller.antt =====
-- controller/lb_controller.go and controller/utils.go
pub mod Nodes
pub mod Events
pub mod Clone
pub mod Sync
pub mod Start
pub mod Setup
pub mod New
