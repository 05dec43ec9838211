-- ===== src/Sensor.antt =====
-- SensorInterface: include/libvhal/sensor_interface.h, source/sensor_interface_impl.h and
-- source/sensor_interface.cc.
pub mod Types
pub mod Interface
pub mod Packets
pub mod Start
mod Examples
