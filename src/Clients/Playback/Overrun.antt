-- ===== src/Clients/Playback/Overrun.antt =====
-- When the program of Playback keeps within its buffer.
use host_camera_server.Base.{
  ℕ, ◌≤◌, ◌<◌, ◌≡◌, ◌≢◌, ◌∙◌, ◌⊎◌, List, [], ◌∷◌, length, drop, arith, All, length-append,
  length-drop, le→ltb_false,
}
use host_camera_server.Net.Client.{StreamClient}
use host_camera_server.Video.Sink.{overlay}
use host_camera_server.Audio.Stream.{CtrlMessage, data_size, read_data_packet}
use host_camera_server.Clients.Playback.{
  alive, overrun, room, Playback, read_data, call_back, take_message, take_messages,
}

-- A message whose data, if it announces any, fits the buffer.
abbrev pub Fits : CtrlMessage → Type 0
Fits m = (m.cmd ≢ 2) ⊎ (data_size m ≤ room)

module _ (net : StreamClient) where
  -- Within its buffer, which keeps its size.
  abbrev pub IsWithin : Playback net → Type 0
  IsWithin p = (p.life ≢ overrun) × (length p.inbuf ≡ room)

  length-overlay : (bs cs : List ℕ) → length bs ≤ length cs → length (overlay bs cs) ≡ length cs
  length-overlay bs cs h =
      omega (arith, length-append bs (drop (length bs) cs), length-drop (length bs) cs)

  module _ (fits : (len : ℕ) (s : net.State) → length (net.recv len 0 s).1.received ≤ len) where
    read_data_packet-fits :
        (len : ℕ) (s : net.State) → length (read_data_packet net len s).1.received ≤ len
    unfolding read_data_packet
    read_data_packet-fits len s = ground (arith, fits len s)

    read_data-IsWithin :
        (size : ℕ) (p : Playback net)
        → size ≤ room
        → length p.inbuf ≡ room
        → IsWithin (read_data net size p)
    unfolding read_data
    read_data-IsWithin size p hs h =
        let few : length (read_data_packet net size p.socket).1.received ≤ room =
          omega (arith, hs, read_data_packet-fits size p.socket) in
        (
          rw (read_data, le→ltb_false _ _ few) (ground arith),
          length-overlay _ p.inbuf (omega (arith, few, h)) ∙ h,
        )

    take_message-IsWithin :
        (m : CtrlMessage) (p : Playback net)
        → Fits m
        → IsWithin p
        → IsWithin (take_message net p.life m p)
    unfolding take_message call_back
    take_message-IsWithin m p hm h = ground (arith, hm, h, read_data-IsWithin (data_size m) p)

    -- If recv() writes no more than it is asked for and every data message announces at most the 1920
    -- bytes of the buffer, the program never writes past the buffer, whatever the messages are.
    pub take_messages-IsWithin :
        (ms : List CtrlMessage) (p : Playback net)
        → All Fits ms
        → IsWithin p
        → IsWithin (take_messages net ms p)
    unfolding take_messages
    take_messages-IsWithin [] p hs h = h
    take_messages-IsWithin (m ∷ ms) p hs h =
        take_messages-IsWithin ms (take_message net p.life m p) hs.1
          (take_message-IsWithin m p hs.0 h)

  overrun_stays :
      (ms : List CtrlMessage) (p : Playback net)
      → p.life ≡ overrun
      → (take_messages net ms p).life ≡ overrun
  unfolding take_messages take_message
  overrun_stays [] p h = h
  overrun_stays (m ∷ ms) p h = overrun_stays ms (take_message net p.life m p) (ground (arith, h))

  read_data-overrun :
      (size : ℕ) (p : Playback net)
      → room < length (net.recv size 0 p.socket).1.received
      → (read_data net size p).life ≡ overrun
  unfolding read_data read_data_packet
  read_data-overrun size p more = ground (arith, more)

  -- A data message for which more than 1920 bytes come overruns the buffer, whatever follows.
  pub take_messages-overrun :
      (m : CtrlMessage) (ms : List CtrlMessage) (p : Playback net)
      → p.life ≡ alive
      → m.cmd ≡ 2
      → room < length (net.recv (data_size m) 0 p.socket).1.received
      → 0 < data_size m
      → (take_messages net (m ∷ ms) p).life ≡ overrun
  unfolding take_messages take_message call_back
  take_messages-overrun m ms p h c more some_data =
      overrun_stays ms (take_message net p.life m p)
        (ground (arith, h, c, some_data, read_data-overrun (data_size m) p more))
