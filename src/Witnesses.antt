-- ===== src/Witnesses.antt =====
-- Examples of the theorems at concrete inputs.
mod Samples
mod Util
mod Control
mod Nodes
mod Proxies
mod Startup
mod Running
mod Generated
mod Queue
mod Licenses
mod Deleted
mod Steady
mod Events
