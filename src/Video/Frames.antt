-- ===== src/Video/Frames.antt =====
-- What SendDataPacket and SetCameraCapabilty put on the VSOCK socket that the host camera server uses
-- (host_camera_service/host_camera_server.cc).
use host_camera_server.Base.{
  ℕ, ◌+◌, ◌*◌, ◌≡◌, ◌⊎◌, inl, inr, List, [], ◌∷◌, ◌++◌, Bool, true, false, ℤ, is_minus_one, not,
  arith, length, u32, Bool-cases, IsWord,
}
use host_camera_server.Net.Kernel.{Kernel, Syscall, wrote}
use host_camera_server.Net.Vsock.{VsockClient, as_stream, send}
use host_camera_server.Video.Wire.{
  camera_data, camera_info, Header, header_bytes, read_header, CameraInfo, info_bytes,
  camera_info_size,
}
use host_camera_server.Video.Wire.RoundTrip.{read_header-header_bytes, length-info_bytes}
use host_camera_server.Video.Sink.{send_data_packet, send_camera_info}

-- The buffers that were handed to send(), newest first, with what it returned.
abbrev pub written : List Syscall → List (List ℕ × ℤ)
written [] = []
written (wrote fd buf result ∷ log) = (buf, result) ∷ written log
written (_ ∷ log) = written log

-- The header that goes before a frame, and the one before an array of camera_info_t.
abbrev pub frame_header : List ℕ → Header
frame_header packet = record { type = camera_data; size = length packet }

abbrev pub info_header : List CameraInfo → Header
info_header infos = record { type = camera_info; size = length (info_bytes infos) }

module _ (k : Kernel) where
  -- A packet goes out as its header and its payload, one send() each, or as its header alone if that
  -- fails.
  abbrev pub Sends : Header → List ℕ → VsockClient → VsockClient → Bool → Type 0
  Sends header payload c c' done =
      let head = header_bytes header in
      let first = k.send c.socket.calls head in
      let second = k.send (c.socket.calls + 1) payload in
      ((is_minus_one first ≡ true)
        × (done ≡ false)
        × (written c'.socket.log ≡ (head, first) ∷ written c.socket.log))
      ⊎ ((is_minus_one first ≡ false)
          × (done ≡ not (is_minus_one second))
          × (written c'.socket.log ≡ (payload, second) ∷ (head, first) ∷ written c.socket.log))

  -- SendDataPacket of fewer than 2^32 bytes sends a header and then the bytes, and only the header if
  -- that fails; it reports a failure exactly if one of the two failed; and a reader of the stream
  -- finds in the header the type CAMERA_DATA and how many bytes follow.
  pub send_data_packet-Sends :
      (packet : List ℕ) (c : VsockClient)
      → IsWord (length packet)
      → Sends
          (frame_header packet)
          packet
          c
          (send_data_packet (as_stream k) packet c).0
          (not (is_minus_one (send_data_packet (as_stream k) packet c).1.size))
        × (read_header (header_bytes (frame_header packet) ++ packet) ≡ frame_header packet)
  unfolding send_data_packet send
  send_data_packet-Sends packet c h =
      let fit : u32 (length packet) ≡ length packet = omega arith in
      (
        rw (send_data_packet, fit)
            (elim (Bool-cases
              (is_minus_one (k.send c.socket.calls (header_bytes (frame_header packet))))) [
                | inl bad ↦ inl (ground arith)
                | inr good ↦ inr (ground arith)
              ]),
        (read_header-header_bytes (frame_header packet) packet tt h).0,
      )

  -- SetCameraCapabilty of infos that take fewer than 2^32 bytes sends a header and then the infos, and
  -- only the header if that fails; it goes on to wait for the answer exactly if neither failed; and
  -- a reader finds in the header the type CAMERA_INFO and how many bytes the infos take.
  pub send_camera_info-Sends :
      (infos : List CameraInfo) (c : VsockClient)
      → IsWord (length (info_bytes infos))
      → Sends
          (info_header infos)
          (info_bytes infos)
          c
          (send_camera_info (as_stream k) infos c).0
          (send_camera_info (as_stream k) infos c).1
        × (read_header (header_bytes (info_header infos) ++ info_bytes infos) ≡ info_header infos)
  unfolding send_camera_info send
  send_camera_info-Sends infos c h =
      let fit : u32 (length infos * camera_info_size) ≡ length (info_bytes infos) =
        omega (arith, length-info_bytes infos) in
      (
        rw (send_camera_info, fit)
            (elim (Bool-cases
              (is_minus_one (k.send c.socket.calls (header_bytes (info_header infos))))) [
                | inl bad ↦ inl (ground arith)
                | inr good ↦ inr (ground arith)
              ]),
        (read_header-header_bytes (info_header infos) (info_bytes infos) tt h).0,
      )
