-- ===== src/Audio/Stream.antt =====
-- The Impl classes of source/audio_source_impl.h and source/audio_sink_impl.h, over any
-- IStreamSocketClient. Their threads are the same text; only the source reads data, and only the
-- sink sends it.
use host_camera_server.Base.{
  ℕ, List, [], ◌∷◌, Bool, true, false, ◌||◌, ℤ, pos, negsuc, is_minus_one, Option, none, some,
  length, get_or, words_of_bytes, if◌then◌else◌, ◌==◌,
}
use host_camera_server.Net.Kernel.{IoResult}
use host_camera_server.Net.Client.{StreamClient}
use host_camera_server.Talker.{
  Talker, Revents, Flow, again, leave, raise, is_size, close_socket, Event, started, run,
}

-- CtrlMessage; `data_size` shares its four bytes with `sample_rate`.
pub record CtrlMessage : Type 0 where
  pub cmd : ℕ
  pub sample_rate : ℕ
  pub channel_count : ℕ
  pub format : ℕ
  pub frame_count : ℕ

abbrev pub data_size : CtrlMessage → ℕ
data_size m = m.sample_rate

abbrev pub ctrl_message_size : ℕ
ctrl_message_size = 20

unfoldable pub read_ctrl_message : List ℕ → CtrlMessage
read_ctrl_message bs =
    let ws = words_of_bytes bs in
    record {
      cmd = get_or ws 0 0;
      sample_rate = get_or ws 1 0;
      channel_count = get_or ws 2 0;
      format = get_or ws 3 0;
      frame_count = get_or ws 4 0;
    }

-- The callback is called with a control message.
pub data Act : Type 0 where
  called : CtrlMessage → Act

-- ReadDataPacket refuses what is not positive.
abbrev pub is_positive : ℤ → Bool
is_positive (pos n) = if n == 0 then false else true
is_positive (negsuc n) = false

module _ (net : StreamClient) where
  -- AudioSource::Impl::ReadDataPacket.
  unfoldable pub read_data_packet : ℕ → net.State → net.State × IoResult
  read_data_packet len s =
      let (s', result) = net.recv len 0 s in
      (
        s',
        if is_positive result.size
            then record result { error = none }
            else record result { size = negsuc 0 },
      )

  -- AudioSink::Impl::SendDataPacket.
  unfoldable pub send_data_packet : List ℕ → net.State → net.State × IoResult
  send_data_packet packet s =
      let (s', result) = net.send packet s in
      (
        s',
        if is_minus_one result.size
            then result
            else record { size = pos (length packet); received = []; error = none },
      )

-- `callback` is what RegisterCallback has set `callback_` to: what it does to the socket, from which it
-- may read with ReadDataPacket. There is none before; calling an empty std::function throws.
module _ (net : StreamClient) (callback : Option (CtrlMessage → net.State → net.State)) where
  unfoldable pub call_back : CtrlMessage → Talker net.State Act → Talker net.State Act × Flow
  call_back m t = elim callback [
    | none ↦ (t, raise)
    | some f ↦ (record t { acts = called m ∷ t.acts; socket = f m t.socket }, again)
  ]

  unfoldable pub serve_message : Talker net.State Act → Talker net.State Act × Flow
  unfolding call_back
  serve_message t =
      let (s, result) = net.recv ctrl_message_size 0 t.socket in
      let t1 = record t { socket = s } in
      if is_size result.size ctrl_message_size
      then call_back (read_ctrl_message result.received) t1
      else (close_socket net t1, leave)

  unfoldable pub serve : Revents → Talker net.State Act → Talker net.State Act × Flow
  unfolding serve_message
  serve r t =
      if r.pollin
      then serve_message t
      else if r.pollerr || r.pollhup
      then (close_socket net t, leave)
      else (t, again)

  unfoldable pub run_audio : List Event → net.State → Talker net.State Act
  run_audio es s = run net (λ t. t) serve es (started s)
