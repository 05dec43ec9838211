-- ===== src/Gps.antt =====
-- VirtualGpsReceiver: include/libvhal/virtual_gps_receiver.h and source/virtual_gps_receiver.cc.
pub mod Receiver
pub mod Writing
pub mod Worker
pub mod Sharing
pub mod Sample
pub mod Injection
mod Examples
