-- ===== src/Camera/Capture.antt =====
-- The body of the capture thread's loop in main() of host_camera_service/host_camera_server.cc: what it
-- sends for a frame. Camera/Server has the thread among the others.
pub mod Frames
use host_camera_server.Base.{
  ℕ, ◌+◌, ◌*◌, ◌/◌, ◌%◌, List, [], ◌∷◌, Bool, false, ◌||◌, Option, none, some, length, get_or, set,
  take, ltb, u32, if◌then◌else◌,
}
use host_camera_server.Net.Client.{StreamClient}
use host_camera_server.Video.Sink.{send_data_packet}
use host_camera_server.Camera.Convert.{yuyv422_to_yuv420sp}

-- The thread's use of the program: the socket of the sink, the four buffers and the count of frames.
-- A byte that the conversion reads past the end of a frame is 0.
pub record Capture (net : StreamClient) : Type 0 where
  pub socket : net.State
  pub buf_list : List (List ℕ)
  pub buf_count : ℕ

-- width * height * 1.5.
abbrev pub inbuf_size : ℕ → ℕ → ℕ
inbuf_size width height = width * height * 3 / 2

-- `pkt->data` after av_read_frame, which leaves a blank packet where it fails.
unfoldable pub packet_data : Option (List ℕ) → List ℕ
packet_data none = []
packet_data (some bytes) = bytes

module _ (net : StreamClient) (width height : ℕ) where
  -- The branch for kI420: a conversion into the next buffer, which is sent.
  unfoldable pub send_converted : List ℕ → Capture net → Capture net
  send_converted packet c =
      let index = c.buf_count % 4 in
      let buf = yuyv422_to_yuv420sp packet (get_or c.buf_list index []) width height false in
      record c {
        socket = (send_data_packet net (take (inbuf_size width height) buf) c.socket).0;
        buf_list = set c.buf_list index buf;
      }

  -- The other formats go out as they come.
  unfoldable pub send_packet : List ℕ → Capture net → Capture net
  send_packet packet c = record c { socket = (send_data_packet net packet c.socket).0 }

  -- A round of the loop, with what av_read_frame gives; a failure is printed and the round goes on.
  unfoldable pub frame_round : Bool → Option (List ℕ) → Capture net → Capture net
  frame_round i420 frame c =
      let packet = packet_data frame in
      let c1 = if i420 then send_converted packet c else send_packet packet c in
      record c1 { buf_count = u32 (c1.buf_count + 1) }

  unfoldable pub frame_rounds : Bool → List (Option (List ℕ)) → Capture net → Capture net
  frame_rounds i420 [] c = c
  frame_rounds i420 (f ∷ fs) c = frame_rounds i420 fs (frame_round i420 f c)
