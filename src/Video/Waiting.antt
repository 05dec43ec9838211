-- ===== src/Video/Waiting.antt =====
-- GetCameraCapabilty and SetCameraCapabilty of source/video_sink_impl.h beside the talker thread: the
-- caller sends, and then waits on `wait_api_data` for a notification of the thread.
pub mod Answers
use host_camera_server.Base.{
  ℕ, zero, suc, ◌+◌, ◌≡◌, refl, ap, ◌∙◌, inl, inr, List, [], ◌∷◌, Bool, true, false, arith, ltb,
  if◌then◌else◌, ◌||◌, Bool-cases,
}
use host_camera_server.Net.Client.{StreamClient}
use host_camera_server.Talker.{Revents, is_size, close_socket}
use host_camera_server.Video.Wire.{
  PacketType, capability, ack, camera_config, request_capability, camera_data, camera_info, other,
  CameraInfo, read_header, header_size, capability_size, ack_size, config_cmd_size,
}
use host_camera_server.Video.Sink.{
  Act, signalled, stored, notified, called, Sink, capability_of, recv_packet, handle_ack,
  handle_capability, handle_cmd, handle, serve_message, serve, request_camera_capability,
  send_camera_info,
}

-- Where the caller is: outside; past the request and before the wait; in the wait; back from it; back
-- because the request could not be sent.
pub data Caller : Type 0 where
  away asking waiting answered refused : Caller

pub record Exchange (net : StreamClient) : Type 0 where
  pub sink : Sink net
  pub caller : Caller

-- How often the thread has notified.
unfoldable pub notifications : List Act → ℕ
notifications [] = 0
notifications (notified ∷ acts) = suc (notifications acts)
notifications (signalled ∷ acts) = notifications acts
notifications (stored bs ∷ acts) = notifications acts
notifications (called cmd ∷ acts) = notifications acts

-- notify_one wakes a caller that waits, and is lost on any other.
abbrev pub notify : Caller → Caller
notify waiting = answered
notify c = c

-- The caller sends a request for the capability or the infos of the cameras, and goes on if it is sent.
abbrev pub sending : Bool → Caller
sending true = asking
sending false = refused

-- Into the wait.
abbrev pub enter : Caller → Caller
enter asking = waiting
enter c = c

module _ (net : StreamClient) (msg_waitall : ℕ) where
  -- Who moves next: a caller of GetCameraCapabilty, which finds `size` on the stack, or of
  -- SetCameraCapabilty; the caller on its way into the wait; the thread, with the outcome of poll(); or
  -- a spurious return from the wait.
  pub data Move : Type 0 where
    gets : ℕ → Move
    sets : List CameraInfo → Move
    waits wakes : Move
    serves : Revents → Move

  unfoldable pub get_camera_capability : ℕ → Caller → Exchange net → Exchange net
  get_camera_capability size away x =
      let (s, ok) = request_camera_capability net size x.sink.socket in
      record x { sink = record x.sink { socket = s }; caller = sending ok }
  get_camera_capability size _ x = x

  unfoldable pub set_camera_capability : List CameraInfo → Caller → Exchange net → Exchange net
  set_camera_capability infos away x =
      let (s, ok) = send_camera_info net infos x.sink.socket in
      record x { sink = record x.sink { socket = s }; caller = sending ok }
  set_camera_capability infos _ x = x

  -- One round of the thread.
  unfoldable pub serve_round : Revents → Exchange net → Exchange net
  serve_round r x =
      let (t, flow) = serve net msg_waitall r x.sink in
      record {
        sink = t;
        caller =
            if ltb (notifications x.sink.acts) (notifications t.acts)
            then notify x.caller
            else x.caller;
      }

  unfoldable pub step : Move → Exchange net → Exchange net
  unfolding get_camera_capability set_camera_capability serve_round
  step (gets size) x = get_camera_capability size x.caller x
  step (sets infos) x = set_camera_capability infos x.caller x
  step waits x = record x { caller = enter x.caller }
  step (serves r) x = serve_round r x
  step wakes x = record x { caller = notify x.caller }

  unfoldable pub run : List Move → Exchange net → Exchange net
  unfolding step
  run [] x = x
  run (m ∷ ms) x = run ms (step m x)
