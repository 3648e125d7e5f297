-- ===== src/CyclicFileRead.antt =====
-- stats-recording/src/cyclic-file-read: the collector that reads files under /proc, formats what it
-- reads as lines, queues the lines, and sends them.
pub mod Queue
pub mod Chain
pub mod Fifo
pub mod Text
pub mod Forms
pub mod Disk
pub mod Net
pub mod Pid
pub mod Lines
pub mod Stat
pub mod Sys
pub mod Options
