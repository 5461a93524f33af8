-- ===== src/Tests.antt =====
-- Concrete memory, volumes and devices, and the theorems applied to them.
pub mod Data
mod Trees
mod Files
mod Images
mod Readings
mod Paths
mod Reads
mod Disks
mod Containers
mod Mounts
mod Refusals
mod Contexts
mod Commands
mod Starts
mod Logs
mod Whole
