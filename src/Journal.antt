-- ===== src/Journal.antt =====
-- server-pocs/metrics-to-influxdb/sd-journal-to-influxdb/src: journal entries as lines for InfluxDB.
pub mod Text
pub mod Overflow
pub mod Publish
pub mod Program
