-- ===== src/Terminal.antt =====
-- The interactive terminal of retrobridge/terminal/utils.py: the leases of the ports and the registry
-- of the bridges, which are tables, and the bridges that one web worker keeps in memory.
pub mod Leases
pub mod Bridges
pub mod Monitors
pub mod Events
mod Tests
