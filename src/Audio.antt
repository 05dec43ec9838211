-- ===== src/Audio.antt =====
-- AudioSource and AudioSink: source/audio_source_impl.h, source/audio_sink_impl.h and
-- include/libvhal/audio_common.h.
pub mod Stream
pub mod Formats
pub mod Messages
pub mod OverTcp
mod Examples
