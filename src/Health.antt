-- ===== src/Health.antt =====
-- backend/health_monitor.py. Node holds the telemetry of a node, Monitor the class HealthMonitor;
-- the other modules prove what they do.
pub mod Node
pub mod Monitor
pub mod Report
pub mod Status
pub mod Issues
pub mod Alarm
pub mod Watch
pub mod Silence
