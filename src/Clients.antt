-- ===== src/Clients.antt =====
-- The programs of host_camera_service that use the library: camera_client.cc, audio_record_client.cc,
-- audio_playback_client.cc, camera_socket_client.cc and sensor_client.cc.
pub mod Pushing
pub mod Process
pub mod Reading
pub mod Framed
pub mod Sensors
pub mod Playback
pub mod Programs
mod Examples
