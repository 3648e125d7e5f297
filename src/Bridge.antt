-- ===== src/Bridge.antt =====
-- stats-recording/src/posix-mq-to-mqtt-bridge: messages from the POSIX queues, tagged with the host
-- name, and published to the MQTT broker.
pub mod Hostname
pub mod Separator
pub mod Tagging
pub mod Escaped
pub mod Lines
pub mod Forwarding
pub mod Client
pub mod Program
pub mod System
pub mod Watcher
