-- ===== src/Camera.antt =====
-- The host camera server: host_camera_service/host_camera_server.cc.
pub mod Convert
pub mod Server
pub mod Search
pub mod Negotiation
pub mod Opening
pub mod Capture
mod Examples
