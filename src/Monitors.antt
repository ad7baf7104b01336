-- ===== src/Monitors.antt =====
-- src/rb_sensor_monitor_array.c: the monitors of a sensor and a pass over all of them.
pub mod Dependencies
pub mod Update
pub mod Pass
pub mod Parse
