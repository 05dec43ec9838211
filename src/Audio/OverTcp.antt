-- ===== src/Audio/OverTcp.antt =====
-- The audio classes as their constructors in source/audio_source.cc and source/audio_sink.cc build
-- them: the talker thread over a TCP client.
pub mod Splitting
use host_camera_server.Base.{
  ℕ, ◌<◌, ◌≡◌, refl, sym, ap, ◌∙◌, inl, inr, List, [], ◌∷◌, ◌++◌, map, append-nil, true, false,
  ◌||◌, All, arith, length, Bool-cases,
}
use host_camera_server.Net.Kernel.{Kernel, RecvFits, IoResult}
use host_camera_server.Net.Client.{hang_up}
use host_camera_server.Net.Tcp.{TcpClient, create, close}
use host_camera_server.Net.Tcp.Transfer.{Transfers, bytes_read}
use host_camera_server.Net.Tcp.Stream.{recv_all, recv_all-Transfers, as_stream}
use host_camera_server.Talker.{
  Talker, outer, polling, finished, died, started, advance, Phase, Revents, Poll, failure, timeout,
  ready, Flow, again, leave, raise, is_size, polls, after_body, poll_step, step, run,
}
use host_camera_server.Audio.Stream.{
  ctrl_message_size, read_ctrl_message, Act, called, call_back, serve_message, serve,
}

-- The ports that the two constructors choose; the one in the connection info is not used.
abbrev pub playback_port : ℕ
playback_port = 8768

abbrev pub record_port : ℕ
record_port = 8767

-- The socket clients that the constructors of AudioSource and AudioSink make.
unfoldable pub source_client : List ℕ → ℕ → TcpClient
unfolding create
source_client ip port = create ip playback_port

unfoldable pub sink_client : List ℕ → ℕ → TcpClient
unfolding create
sink_client ip port = create ip record_port

-- The bytes of whole messages, the newest message first.
abbrev pub joined : List (List ℕ) → List ℕ
joined [] = []
joined (m ∷ ms) = joined ms ++ m

abbrev pub IsMessage : List ℕ → Type 0
IsMessage bs = length bs ≡ ctrl_message_size

abbrev pub passed : List (List ℕ) → List Act
passed ms = map (λ bs. called (read_ctrl_message bs)) ms

-- The callback has been called with these messages; what was read is their bytes and then `rest`.
pub record Split (ms : List (List ℕ)) (rest : List ℕ) (t : Talker TcpClient Act) : Type 0 where
  pub whole : All IsMessage ms
  pub stream : bytes_read t.socket.socket.log ≡ joined ms ++ rest
  pub calls : t.acts ≡ passed ms
  pub part : length rest < ctrl_message_size
  pub clean : (t.phase ≡ polling) → rest ≡ []

-- The messages and the rest that are split off are found after each step.
abbrev pub Splits : Talker TcpClient Act → Type 0
Splits t = (ms : List (List ℕ)) × (rest : List ℕ) × Split ms rest t
