-- ===== src/Video/Examples.antt =====
-- The video sink's theorems at concrete inputs.
use host_camera_server.Base.{
  ℕ, ◌<◌, ◌≡◌, refl, List, [], ◌∷◌, ◌++◌, true, false, pos, is_minus_one, not, arith, length,
  replicate,
}
use host_camera_server.Net.Kernel.{bytes, Kernel}
use host_camera_server.Net.Vsock.{VsockClient, as_stream}
use host_camera_server.Talker.{polling, started}
use host_camera_server.Video.Wire.{
  capability, Header, header_bytes, read_header, CameraInfo, info_bytes,
}
use host_camera_server.Video.Wire.RoundTrip.{length-info_bytes}
use host_camera_server.Video.Sink.{Sink, send_data_packet}
use host_camera_server.Video.Frames.{Sends, frame_header, send_data_packet-Sends}
use host_camera_server.Base.{if◌then◌else◌, ◌==◌}
use host_camera_server.Talker.{Revents}
use host_camera_server.Video.Waiting.{Exchange, asking, waiting, serves, waits, gets, run}
use host_camera_server.Video.Waiting.Answers.{answer-lost}

-- A server that sends zeros.
abbrev zeros : Kernel
zeros = record {
  socket = λ n. pos 5;
  connect = λ n address. pos 0;
  send = λ n buf. pos (length buf);
  recv = λ n size flags. bytes (replicate size 0);
  errno = λ n. 0;
}

abbrev online : VsockClient
online = record {
  cid = pos 3;
  socket = record { fd = pos 5; connected = true; calls = 2; log = [] };
}

abbrev thread : Sink (as_stream zeros)
thread = record (started online) { phase = polling }

abbrev frame : List ℕ
frame = 1 ∷ 2 ∷ 3 ∷ []

send_data_packet-Sends_example :
    Sends zeros
      (frame_header frame)
      frame
      online
      (send_data_packet (as_stream zeros) frame online).0
      (not (is_minus_one (send_data_packet (as_stream zeros) frame online).1.size))
    × (read_header (header_bytes (frame_header frame) ++ frame) ≡ frame_header frame)
send_data_packet-Sends_example = send_data_packet-Sends zeros frame online (omega arith)

abbrev infos : List CameraInfo
infos =
    record {
      camera_id = 0;
      codec_type = 4;
      resolution = 1;
      sensor_orientation = 0;
      facing = 1;
      reserved = (0, 0, 0);
    }
    ∷ []

infos_fit : length (info_bytes infos) < 4294967296
infos_fit = omega (arith, length-info_bytes infos)

abbrev capability_header : Header
capability_header = record { type = capability; size = 32 }

-- A server that answers with a capability.
abbrev capable : Kernel
capable = record zeros {
  recv = λ n size flags.
      bytes (if size == 8 then header_bytes capability_header else replicate size 0);
}

abbrev input : Revents
input = record { pollin = true; pollerr = false; pollhup = false; pollnval = false }

abbrev caller_asks : Exchange (as_stream capable)
caller_asks = record { sink = thread; caller = asking }

answer-lost_example :
    (run (as_stream capable) 256 (serves input ∷ waits ∷ gets 0 ∷ []) caller_asks).caller ≡ waiting
answer-lost_example = answer-lost (as_stream capable) 256 input (gets 0 ∷ []) caller_asks refl tt
