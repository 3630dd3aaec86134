-- ===== src/Simulation.antt =====
-- The simulated devices of retrobridge/simulation.py, behind a pseudo-terminal.
pub mod Receiver
pub mod Terminal
mod Tests
