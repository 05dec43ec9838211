-- ===== src/Clients/Examples.antt =====
-- The theorems on the client programs at concrete inputs.
use host_camera_server.Base.{
  ◌++◌, ℕ, suc, ◌*◌, ◌≤◌, ◌≡◌, refl, inr, List, [], ◌∷◌, true, false, Option, none, some, pos,
  arith, length, take, length-take, if◌then◌else◌, replicate, bytes_of_words, map,
}
use host_camera_server.Net.Kernel.{bytes, Kernel, IoResult}
use host_camera_server.Net.Client.{StreamClient}
use host_camera_server.Net.Unix.{UnixClient, as_stream, recv, send}
use host_camera_server.Audio.Stream as Stream
use host_camera_server.Audio.Stream.{CtrlMessage}
use host_camera_server.Sensor.Interface.{CtrlPacket, SensorDataPacket}
use host_camera_server.Video.Sink.{send_data_packet}
use host_camera_server.Clients.Reading.{read_frames, framed}
use host_camera_server.Clients.Pushing.Stream.{
  camera, camera_client-Streams, audio_record_client-Streams, copies,
}
use host_camera_server.Net.Reliable.{Reliable, unix-Reliable}
use host_camera_server.Clients.Pushing.{
  frame_size, audio_size, Pusher, going, turns, started, turn, step, step_at, go_on, open_file,
  body, read, push,
}
use host_camera_server.Clients.Pushing.Passes.{pieces, repeated}
use host_camera_server.Clients.Process.{
  Process, Move, opens, closes, commands, joins, alive, gone, run, at_start,
}
use host_camera_server.Clients.Process as Process
use host_camera_server.Clients.Process.Fate.{Agrees, waiting, fate, AtMostOne, run-closes}
use host_camera_server.Clients.Framed as Framed
use host_camera_server.Clients.Framed.Frames.{Carries, loop-Carries}
use host_camera_server.Clients.Sensors.{accelerometer, notes, pass, send_event}
use host_camera_server.Clients.Sensors.First.{first_flag, wanted, pass-notes}
use host_camera_server.Video.Wire.{ConfigCmd}
use host_camera_server.Clients.Programs.{
  Event, called, proceeds, returns, camera_move, audio_move, camera_client, audio_record_client,
  clients-Agrees,
}
use host_camera_server.Clients.Playback as Playback
use host_camera_server.Clients.Playback.{Playback, take_messages, room}
use host_camera_server.Clients.Playback.Overrun.{IsWithin, take_messages-IsWithin}

-- A file of seven bytes, sent in pieces of three by a send that takes everything.
abbrev seven : List ℕ
seven = 1 ∷ 2 ∷ 3 ∷ 4 ∷ 5 ∷ 6 ∷ 7 ∷ []

abbrev there : ℕ → Option (List ℕ)
there n = some seven

abbrev send_all : List ℕ → ℕ → ℕ × IoResult
send_all packet n = (suc n, record { size = pos (length packet); received = []; error = none })

sent_twice :
    (turns there 3 send_all 7 (started 0 [])).sent
    ≡ (4 ∷ 5 ∷ 6 ∷ []) ∷ (1 ∷ 2 ∷ 3 ∷ []) ∷ (4 ∷ 5 ∷ 6 ∷ []) ∷ (1 ∷ 2 ∷ 3 ∷ []) ∷ []
unfolding turns turn step step_at go_on open_file body read push
sent_twice = refl

abbrev streaming : Process ℕ
streaming = record {
  stop = false;
  joinable = true;
  pusher = record { socket = 0; opened = 1; rest = seven; inbuf = []; sent = []; phase = going };
  life = alive;
}

abbrev closed : Process ℕ
closed =
    run there 3 send_all (commands closes ∷ Process.turns ∷ Process.turns ∷ joins ∷ []) streaming

run-closes_example : (closed.life ≡ gone 0) × AtMostOne streaming.pusher closed.pusher
run-closes_example =
    run-closes there 3 send_all (λ n. (seven, refl)) (λ packet s. refl) streaming
      (refl, refl, refl, inr (inr refl))

abbrev three : List ℕ
three = 1 ∷ 2 ∷ 3 ∷ []

-- A system whose socket takes everything, and gives up to three bytes.
abbrev kernel : Kernel
kernel = record {
  socket = λ n. pos 5;
  connect = λ n address. pos 0;
  send = λ n buf. pos (length buf);
  recv = λ n size flags. bytes (take size three);
  errno = λ n. 0;
}

abbrev net : StreamClient
net = as_stream kernel

abbrev online : UnixClient
online = record {
  path = 47 ∷ [];
  socket = record { fd = pos 5; connected = true; calls = 2; log = [] };
}

-- A file of one whole piece and five bytes, sent twice over.
abbrev film : List ℕ
film = replicate 4101 7

abbrev film_there : ℕ → Option (List ℕ)
film_there n = some film

abbrev net_takes : Reliable net
net_takes = unix-Reliable kernel (λ n buf. refl)

abbrev sent_film : Pusher UnixClient
sent_film = turns film_there frame_size (send_data_packet net) (suc (2 * suc 1)) (started online [])

camera_client-Streams_example :
    (net_takes.taken sent_film.socket
      ≡ net_takes.taken online ++ framed camera (repeated 2 (pieces frame_size 1 film)))
    × (read_frames camera
          (length (repeated 2 (pieces frame_size 1 film)))
          (framed camera (repeated 2 (pieces frame_size 1 film)))
        ≡ some (repeated 2 (pieces frame_size 1 film)))
camera_client-Streams_example =
    camera_client-Streams net net_takes film_there 2 1 film online [] (omega arith) (omega arith)
      (λ n. refl)

abbrev sent_sound : Pusher UnixClient
sent_sound =
    turns film_there audio_size (Stream.send_data_packet net) (suc (2 * suc 2)) (started online [])

audio_record_client-Streams_example :
    net_takes.taken sent_sound.socket
    ≡ net_takes.taken online ++ copies 2 (take (2 * audio_size) film)
audio_record_client-Streams_example =
    audio_record_client-Streams net net_takes film_there 2 2 film online [] (omega arith)
      (omega arith) (λ n. refl)

abbrev framing : Framed.Sender net
framing = Framed.loop net seven (λ n. false) 3 (Framed.first net seven (λ n. false) online)

framing-phase : framing.phase ≡ Framed.looping
unfolding Framed.loop Framed.send_piece Framed.send_frame Framed.send_data Framed.send_whole send
    Framed.size_bytes bytes_of_words
framing-phase = refl

loop-Carries_example : Carries seven framing.wire framing.rest
loop-Carries_example = loop-Carries net seven (λ n. false) 3 online framing-phase

-- The accelerometer is enabled and then disabled.
abbrev packets : List CtrlPacket
packets =
    record { type = 1; enabled = 1; sampling_period_ns = 5 }
    ∷ record { type = 1; enabled = 0; sampling_period_ns = 5 }
    ∷ []

abbrev event : SensorDataPacket
event = record { type = 0; timestamp_ns = 0; fdata = replicate 6 0 }

pass-notes_example : pass net (7, 8) (notes packets []) (event, online) ≡ (
    if wanted (first_flag accelerometer packets)
    then send_event net (7, 8) (event, online)
    else (event, online))
pass-notes_example = pass-notes net (7, 8) packets (event, online)

-- A camera is opened and closed; a recording is opened twice.
abbrev camera_command : ℕ → Event ConfigCmd
camera_command cmd =
    called (record { version = 0; cmd = cmd; camera_id = 0; codec_type = 0; resolution = 0 })

abbrev audio_command : ℕ → Event CtrlMessage
audio_command cmd =
    called (record { cmd = cmd; sample_rate = 0; channel_count = 0; format = 0; frame_count = 0 })

abbrev camera_events : List (Event ConfigCmd)
camera_events =
    camera_command 11 ∷ proceeds ∷ proceeds ∷ camera_command 12 ∷ proceeds ∷ returns ∷ []

abbrev audio_events : List (Event CtrlMessage)
audio_events = audio_command 0 ∷ proceeds ∷ audio_command 0 ∷ []

clients-Agrees_example :
    Agrees
      (fate waiting (map camera_move camera_events))
      (camera_client net there camera_events online [])
    × Agrees
        (fate waiting (map audio_move audio_events))
        (audio_record_client net there audio_events online [])
clients-Agrees_example = clients-Agrees net there camera_events audio_events online []

-- Three bytes of sound.
abbrev sound : List CtrlMessage
sound = record { cmd = 2; sample_rate = 3; channel_count = 0; format = 0; frame_count = 0 } ∷ []

abbrev playing : Playback net
playing = record { socket = online; inbuf = replicate room 0; life = Playback.alive }

recv_fits : (len : ℕ) (s : UnixClient) → length (recv kernel len 0 s).1.received ≤ len
unfolding recv
recv_fits len s = omega (arith, length-take len three)

take_messages-IsWithin_example : IsWithin net (take_messages net sound playing)
take_messages-IsWithin_example =
    take_messages-IsWithin net recv_fits sound playing (inr (omega arith), tt) (ground arith, refl)
