-- ===== src/Handlers.antt =====
-- pkg/util/lb/event_handler.go
pub mod Deployments
pub mod Pods
