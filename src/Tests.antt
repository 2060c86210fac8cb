-- ===== src/Tests.antt =====
-- Runs of the theorems at concrete inputs.
pub mod Data
mod Master
mod Queue
pub mod Allocators
mod Nodes
mod Watches
mod Switch
mod Backend
mod Setup
mod Pods
mod Subnets
mod Plugin
mod Starts
