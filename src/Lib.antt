-- ===== src/Lib.antt =====
-- Linux system monitoring: programs that collect figures and events of a machine, write them as lines
-- of the InfluxDB line protocol, and hand them on through POSIX message queues and MQTT.
--
-- The parts. The collectors and monitors under stats-recording/src each make lines and pass them to
-- `send_to_mq`; the bridge, stats-recording/src/posix-mq-to-mqtt-bridge, takes them from the queues,
-- adds the host name, and publishes them. A second publisher, under
-- server-pocs/metrics-to-influxdb/sd-journal-to-influxdb/src, sends journal entries.
--
-- The modules.
--   Base, Base/Lists, Base/Tests: shared names and lemmas; Memory: a buffer as a list of cells, in which
--     a write out of bounds is `none`; CString: the C library's string functions.
--   Escape: utilities/line_protocol_escaper.c. Exact says what the loops write, Reading how a receiver
--     reads it, Calls what a caller is promised.
--   CyclicFileRead: cyclic-file-read/src. Queue is the linked list of common.c (a heap of nodes, the head,
--     the number of nodes that are allocated, and what was sent), and Fifo its refinement of a queue. Text
--     and Forms are the helpers and labels; Stat, Disk, Net, Pid and Sys are stat.c, disk.c, net.c, pid.c
--     and sys.c; Options is cyclic-file-read.c, with the collectors as an interface. Integer: C's int.
--   Posix: the calls of the operating system as a record, with what their manual pages promise as a
--     second one, over any state of the machine. MessageQueue: utilities/mq.c over these calls; Sending
--     says what it leaves behind. Signals and FileUtils:
--     utilities/signal_handling.c and file_utils.c.
--   Bridge: posix-mq-to-mqtt-bridge. Hostname is `add_hostname_to_msg`, Forwarding the bodies of the two
--     threads, Watcher `inotify_mq` over the calls of the system, Client the callbacks of the MQTT library,
--     Program main.c; System has the steps of the threads between those of the programs that send, and
--     its modules are about all orders of the steps.
--   Psi: epoll-psi/epoll_psi.c, with Registration for its files and Program for main. Inotify: the buffer
--     that inotify-coredump, inotify-pacct and the bridge walk over, and the set-up of the first two; Coredump/Published and CyclicFileRead/Disk/Published follow
--     lines over the bridge, by what Bridge/Lines says of tags and fields. Coredump
--     and Pacct: inotify-coredump and inotify-pacct, each with its main program as Program. Dbus:
--     dbus-systemd-signals. Sysinfo: cyclic-sysinfo. Demo: app/demo.c, a program to watch, with its list on
--     a heap of blocks (Row and Filled, Freeing, Stale) and its children (Forking).
--   Journal: publish_influxdb.c and mqtt.c; its Program is sd_journal_to_influxdb.c, over the calls of the
--     journal's and the client's library. Tests: runs and instances.
--
-- How it is modelled. A byte is a number; a C string is its bytes without the NUL. `none` is undefined
-- behaviour or fuel that ran out. What the programs get from the operating system (files, malloc,
-- timestamps, the results of read, select, epoll_wait and mq_receive) and from other libraries is an
-- argument, or a record of calls over a state of the machine; an endless loop runs over the list of what
-- it is given, or for a number of rounds. A return value of -1 is 1. A
-- `size_t` wraps at 2^64; the numbers of an inotify event are 32 bits wide, little endian. The loops over
-- a buffer of events have one unit of fuel more than the buffer has bytes, and each event takes at least
-- 16 of them. The loops over the linked list have as many units as nodes were ever allocated, and a queue
-- of the model lies at growing addresses. The search of a process has the fuel it is given, and
-- ends without a result where its `int` overflows. The position in the accounting file and the result of
-- `read_file_into_buffer` are truncated to an `int`; where `fseek` fails for it, what is read is an argument.
--
-- In the steps of Bridge/System the kernel's queues are numbered as they are made, so that a queue whose
-- name was removed, which the bridge still has open, is told from a new one under that name. A
-- message counts as sent when `mq_send` has returned, so that a sender that waits for room takes no step;
-- a bridge that waits in `mq_receive` takes none either. The laws of Posix say of a program's queue that
-- `mq_send` and waiting keep it, not what is in it by then, since it may fill and be read meanwhile.
--
-- Not modelled: the callbacks of the MQTT library that only write to the terminal; output for the user;
-- line_protocol_parser.c (a library's copy that no program calls); calc_pi of the demo, whose result
-- nothing uses; scripts and packages.
pub mod Base
pub mod Memory
pub mod Escape
pub mod CString
pub mod Integer
pub mod Posix
pub mod MessageQueue
pub mod Signals
pub mod FileUtils
pub mod Bridge
pub mod CyclicFileRead
pub mod Psi
pub mod Inotify
pub mod Pacct
pub mod Coredump
pub mod Dbus
pub mod Demo
pub mod Journal
pub mod Sysinfo
mod Tests
