-- ===== src/Video/Sink.antt =====
-- VideoSink::Impl of source/video_sink_impl.h, over any IStreamSocketClient.
use host_camera_server.Base.{
  ℕ, ◌*◌, List, [], ◌∷◌, ◌++◌, Bool, true, false, not, ◌||◌, is_minus_one, length, drop, u8, u32,
  if◌then◌else◌,
}
use host_camera_server.Net.Kernel.{IoResult}
use host_camera_server.Net.Client.{StreamClient}
use host_camera_server.Talker.{
  Talker, Revents, Flow, again, leave, is_size, close_socket, Event, started, run,
}
use host_camera_server.Video.Wire.{
  PacketType, request_capability, capability, camera_config, camera_data, ack, camera_info, other,
  Header, header_bytes, read_header, header_size, new_capability, capability_size, ConfigCmd,
  read_config_cmd, config_cmd_size, ack_size, CameraInfo, info_bytes, camera_info_size,
}

-- What the talker thread does for the rest of the program: it prepares `cmd_capability_` and signals
-- `mSignalInit`, fills `cmd_capability_`, wakes a caller that waits on `wait_api_data`, or calls
-- the camera callback.
pub data Act : Type 0 where
  signalled : Act
  stored : List ℕ → Act
  notified : Act
  called : ConfigCmd → Act

abbrev pub Sink : StreamClient → Type 0
Sink net = Talker net.State Act

-- Bytes received over the start of a buffer.
abbrev pub overlay : List ℕ → List ℕ → List ℕ
overlay bs buffer = bs ++ drop (length bs) buffer

-- `*cmd_capability_`, from what was done, newest first.
unfoldable pub capability_of : List Act → List ℕ
capability_of [] = []
capability_of (signalled ∷ acts) = new_capability
capability_of (stored bs ∷ acts) = overlay bs (capability_of acts)
capability_of (notified ∷ acts) = capability_of acts
capability_of (called cmd ∷ acts) = capability_of acts

abbrev act : {S : Type 0} → Act → Talker S Act → Talker S Act
act a t = record t { acts = a ∷ t.acts }

-- `msg_waitall` is the system's MSG_WAITALL.
module _ (net : StreamClient) (msg_waitall : ℕ) where
  unfoldable pub prepare : Sink net → Sink net
  prepare t = act signalled t

  -- RecvPacket hands the flag to a parameter of type uint8_t.
  unfoldable pub recv_packet : ℕ → Sink net → Sink net × IoResult
  recv_packet size t =
      let (s, result) = net.recv size (u8 msg_waitall) t.socket in (record t { socket = s }, result)

  unfoldable pub handle_ack : Sink net → Sink net × Bool
  unfolding recv_packet
  handle_ack t =
      let (t1, response) = recv_packet ack_size t in
      if is_size response.size ack_size
      then (act notified t1, true)
      else (close_socket net t1, false)

  -- The buffer takes what came, also when that is too short.
  unfoldable pub handle_capability : Sink net → Sink net × Bool
  unfolding recv_packet
  handle_capability t =
      let (t1, response) = recv_packet capability_size t in
      let t2 = act (stored response.received) t1 in
      if is_size response.size capability_size
      then (act notified t2, true)
      else (close_socket net t2, false)

  unfoldable pub handle_cmd : Sink net → Sink net × Bool
  unfolding recv_packet
  handle_cmd t =
      let (t1, response) = recv_packet config_cmd_size t in
      if is_size response.size config_cmd_size
      then (act (called (read_config_cmd response.received)) t1, true)
      else (close_socket net t1, false)

  -- The switch on the header's type. What a handler returns only chooses between `continue` and
  -- the end of the body, which are the same place.
  unfoldable pub handle : PacketType → Sink net → Sink net
  unfolding handle_ack handle_capability handle_cmd
  handle capability t = (handle_capability t).0
  handle ack t = (handle_ack t).0
  handle camera_config t = (handle_cmd t).0
  handle request_capability t = t
  handle camera_data t = t
  handle camera_info t = t
  handle (other n) t = t

  -- A header that is too short closes the socket, and the loop goes on.
  unfoldable pub serve_message : Sink net → Sink net
  unfolding recv_packet handle
  serve_message t =
      let (t1, response) = recv_packet header_size t in
      if is_size response.size header_size
      then handle (read_header response.received).type t1
      else close_socket net t1

  -- The body of the inner loop after poll().
  unfoldable pub serve : Revents → Sink net → Sink net × Flow
  unfolding serve_message
  serve r t =
      if r.pollin
      then (serve_message t, again)
      else if r.pollerr || r.pollhup || r.pollnval
      then (close_socket net t, leave)
      else (t, again)

  unfoldable pub run_sink : List Event → net.State → Sink net
  run_sink es s = run net prepare serve es (started s)

module _ (net : StreamClient) where
  unfoldable pub is_connected : Sink net → Bool
  is_connected t = net.is_connected t.socket

  -- SendRawPacket. The error text is the socket's, behind a fixed one.
  unfoldable pub send_raw_packet : List ℕ → net.State → net.State × IoResult
  send_raw_packet packet s = net.send packet s

  -- SendDataPacket of a buffer: the header, whose size is a uint32_t, and then the payload unless the
  -- header failed.
  unfoldable pub send_data_packet : List ℕ → net.State → net.State × IoResult
  send_data_packet packet s =
      let header : Header = record { type = camera_data; size = u32 (length packet) } in
      let (s1, response) = net.send (header_bytes header) s in
      if is_minus_one response.size then (s1, response) else net.send packet s1

  -- The request that GetCameraCapabilty sends; `none` is its NULL, and otherwise it waits for a
  -- notification. The size of the header is not set, and is what the stack held.
  unfoldable pub request_camera_capability : ℕ → net.State → net.State × Bool
  unfolding send_raw_packet
  request_camera_capability stack s =
      let header : Header = record { type = request_capability; size = stack } in
      let (s1, response) = send_raw_packet (header_bytes header) s in
      (s1, not (is_minus_one response.size))

  -- What SetCameraCapabilty sends; on true it waits for a notification, and returns true.
  unfoldable pub send_camera_info : List CameraInfo → net.State → net.State × Bool
  unfolding send_raw_packet
  send_camera_info infos s =
      let size = u32 (length infos * camera_info_size) in
      let header : Header = record { type = camera_info; size = size } in
      let (s1, response) = send_raw_packet (header_bytes header) s in
      if is_minus_one response.size
      then (s1, false)
      else (let (s2, response2) = send_raw_packet (info_bytes infos) s1 in
          (s2, not (is_minus_one response2.size)))
