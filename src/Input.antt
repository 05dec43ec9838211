-- ===== src/Input.antt =====
-- The virtual input receiver: source/virtual_input_receiver.cc, include/libvhal/input_receiver.h
-- and include/libvhal/virtual_input_receiver.h.
pub mod Device
pub mod Reader
pub mod Touch
pub mod Scan
pub mod Command
pub mod Joystick
pub mod Keys
pub mod Sample
mod Examples
