-- ===== src/SessionHost.antt =====
-- internal/sessionhost: the process that owns a session's shell and its scrollback.
pub mod Ring
pub mod Session
