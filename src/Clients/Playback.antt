-- ===== src/Clients/Playback.antt =====
-- host_camera_service/audio_playback_client.cc: the callback of main(), which AudioSource calls.
pub mod Overrun
use host_camera_server.Base.{ℕ, List, [], ◌∷◌, is_neg, length, ltb, ◌==◌, if◌then◌else◌}
use host_camera_server.Net.Client.{StreamClient}
use host_camera_server.Video.Sink.{overlay}
use host_camera_server.Audio.Stream.{CtrlMessage, data_size, read_data_packet}

-- The program waits for commands, has called exit(), or has written past the end of `inbuf`.
pub data Life : Type 0 where
  alive overrun : Life
  gone : ℕ → Life

-- `inbuf_size`.
abbrev pub room : ℕ
room = 1920

module _ (net : StreamClient) where
  pub record Playback : Type 0 where
    pub socket : net.State
    pub inbuf : List ℕ
    pub life : Life

  -- ReadDataPacket into `inbuf`, of as many bytes as the message says.
  unfoldable pub read_data : ℕ → Playback → Playback
  read_data size p =
      let (s, result) = read_data_packet net size p.socket in
      record {
        socket = s;
        inbuf = overlay result.received p.inbuf;
        life =
            if ltb room (length result.received)
            then overrun
            else if is_neg result.size
            then gone 1
            else alive;
      }

  -- The switch: kOpen is 0, kClose is 1 and kData is 2.
  unfoldable pub call_back : CtrlMessage → Playback → Playback
  unfolding read_data
  call_back m p =
      if m.cmd == 0
      then p
      else if m.cmd == 2
      then (if ltb 0 (data_size m) then read_data (data_size m) p else p)
      else if m.cmd == 1
      then record p { life = gone 0 }
      else record p { life = gone 1 }

  -- A program that is alive takes the next message.
  unfoldable pub take_message : Life → CtrlMessage → Playback → Playback
  unfolding call_back
  take_message alive m p = call_back m p
  take_message overrun m p = p
  take_message (gone n) m p = p

  unfoldable pub take_messages : List CtrlMessage → Playback → Playback
  unfolding take_message
  take_messages [] p = p
  take_messages (m ∷ ms) p = take_messages ms (take_message p.life m p)
