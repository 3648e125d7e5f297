-- ===== src/Bridge/System/Draining.antt =====
-- A queue that is watched can be emptied, also after its name was removed.
use linux_system_monitoring.Base.{List}
use linux_system_monitoring.Bridge.System.{System, Action}
