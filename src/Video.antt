-- ===== src/Video.antt =====
-- VideoSink: include/libvhal/video_sink.h, source/video_sink_impl.h and source/video_sink.cc.
pub mod Wire
pub mod Sink
pub mod Reset
pub mod Handlers
pub mod Frames
pub mod Start
pub mod Waiting
mod Examples
