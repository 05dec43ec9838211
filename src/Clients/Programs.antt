-- ===== src/Clients/Programs.antt =====
-- The two programs that Process models, each with its library calls: host_camera_service/camera_client.cc
-- with VideoSink, and host_camera_service/audio_record_client.cc with AudioSink.
use host_camera_server.Base.{ℕ, List, Option, map}
use host_camera_server.Net.Client.{StreamClient}
use host_camera_server.Video.Wire.{ConfigCmd}
use host_camera_server.Video.Sink as Sink
use host_camera_server.Audio.Stream as Stream
use host_camera_server.Audio.Stream.{CtrlMessage}
use host_camera_server.Clients.Pushing.{frame_size, audio_size}
use host_camera_server.Clients.Process.Fate.{waiting, fate, Agrees, run-Agrees}
use host_camera_server.Clients.Process.{
  Process, Move, commands, turns, joins, camera_order, audio_order, run, at_start,
}

-- A move with the message that the library hands to the callback.
pub data Event (M : Type 0) : Type 0 where
  called : M → Event M
  proceeds returns : Event M

unfoldable pub camera_move : Event ConfigCmd → Move
unfolding camera_order
camera_move (called c) = commands (camera_order c)
camera_move proceeds = turns
camera_move returns = joins

unfoldable pub audio_move : Event CtrlMessage → Move
unfolding audio_order
audio_move (called m) = commands (audio_order m)
audio_move proceeds = turns
audio_move returns = joins

module _ (net : StreamClient) (files : ℕ → Option (List ℕ)) where
  unfoldable pub camera_client : List (Event ConfigCmd) → net.State → List ℕ → Process net.State
  unfolding camera_move
  camera_client es s stack =
      run files frame_size (Sink.send_data_packet net) (map camera_move es) (at_start s stack)

  unfoldable pub audio_record_client :
      List (Event CtrlMessage) → net.State → List ℕ → Process net.State
  unfolding audio_move
  audio_record_client es s stack =
      run files audio_size (Stream.send_data_packet net) (map audio_move es) (at_start s stack)

  -- In every order of the messages, the steps of the thread and the returns of join(), both programs
  -- end as their commands say: they wait before the first; after an open they stream, or have exited
  -- with 1; after an open and then a close they wait in join(), or have exited with 0, or with 1; a
  -- second open, or a close that comes first, terminates them, unless they have exited with 1; and
  -- any other command makes them exit with 1.
  pub clients-Agrees :
      (cs : List (Event ConfigCmd)) (ms : List (Event CtrlMessage)) (s : net.State) (stack : List ℕ)
      → Agrees (fate waiting (map camera_move cs)) (camera_client cs s stack)
        × Agrees (fate waiting (map audio_move ms)) (audio_record_client ms s stack)
  unfolding camera_client audio_record_client
  clients-Agrees cs ms s stack = (
    run-Agrees files frame_size (Sink.send_data_packet net) (map camera_move cs) s stack,
    run-Agrees files audio_size (Stream.send_data_packet net) (map audio_move ms) s stack,
  )
