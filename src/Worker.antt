-- ===== src/Worker.antt =====
-- worker.py: the daemon that claims queued jobs of one device and runs them over its ports.
pub mod Recover
pub mod Claim
pub mod Commands
pub mod Capture
pub mod Run
pub mod Loop
pub mod Tests
