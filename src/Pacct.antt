-- ===== src/Pacct.antt =====
-- stats-recording/src/inotify-pacct: process accounting records as lines.
pub mod Values
pub mod Monitor
pub mod Resend
pub mod Program
pub mod Compressed
