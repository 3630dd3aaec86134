-- ===== src/Transport.antt =====
-- retrobridge/transport.py.
pub mod Telnet
pub mod Socket
pub mod Open
mod Tests
