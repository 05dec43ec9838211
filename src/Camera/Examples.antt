-- ===== src/Camera/Examples.antt =====
-- The conversion of two rows of four pixels.
use host_camera_server.Base.{
  ℕ, ◌+◌, ◌*◌, ◌/◌, ◌≡◌, refl, List, [], ◌∷◌, false, arith, length, get_or, replicate, true, ◌≤◌,
  ◌<◌, ◌↔◌, ℤ, pos, negsuc, is_zero, some, codes, ◌==◌, if◌then◌else◌,
}
use host_camera_server.Camera.Convert.{pixels, columns, rows, yuyv422_to_yuv420sp}
use host_camera_server.Camera.Capture.{Capture}
use host_camera_server.Camera.Convert.Chroma.{pair, second_offset, third_offset}
use host_camera_server.Camera.Convert.Planes.{yuyv422_to_yuv420sp-chroma}
use host_camera_server.Net.Kernel.{bytes, Kernel, fresh}
use host_camera_server.Net.Client.{StreamClient}
use host_camera_server.Net.Unix.{as_stream, connect}
use host_camera_server.Talker.{polling, proceeds, polls, timeout, started}
use host_camera_server.Video.Sink.{signalled}
use host_camera_server.Camera.Search.{
  c_string, contains, sys_entry, find_device, device_index, device_index_size,
}
use host_camera_server.Camera.Search.First.{
  NonePassed, is_normal, find_device-NonePassed, device_index-fits,
}
use host_camera_server.Talker as Talker
use host_camera_server.Video.Reset as Reset
use host_camera_server.Video.Sink as Sink
use host_camera_server.Video.Waiting as Waiting
use host_camera_server.Camera.Negotiation as Negotiation
use host_camera_server.Camera.Negotiation.Rounds.{IsUnsignalled, run-missed}
use host_camera_server.Video.Wire.{cmd_open, cmd_close}
use host_camera_server.Camera.Server.{
  Setup, has_input, no_input, uses_dead_stream, live, idle, waiting, ends, after, absent, reading,
  Server, at_start, Move, commands, talks, captures, step, run,
}
use host_camera_server.Camera.Server.Invariant.{Opens}
use host_camera_server.Camera.Server.Safety.{IsSafe, run-IsSafe}
use host_camera_server.Camera.Server.Completing.{IsBefore, Closes, run-completes}
use host_camera_server.Camera.Server.History.{opened, Delivers, run-opened}

abbrev packed : List ℕ
packed = 10 ∷ 90 ∷ 11 ∷ 80 ∷ 12 ∷ 91 ∷ 13 ∷ 81 ∷ 14 ∷ 92 ∷ 15 ∷ 82 ∷ 16 ∷ 93 ∷ 17 ∷ 83 ∷ []

abbrev planes : List ℕ
planes = replicate 12 0

converted :
    yuyv422_to_yuv420sp packed planes 4 2 false
    ≡ 10 ∷ 11 ∷ 12 ∷ 13 ∷ 14 ∷ 15 ∷ 16 ∷ 17 ∷ 90 ∷ 91 ∷ 80 ∷ 81 ∷ []
unfolding yuyv422_to_yuv420sp rows columns pixels
converted = refl

yuyv422_to_yuv420sp-chroma_example :
    (get_or (yuyv422_to_yuv420sp packed planes 4 2 false) (2 * 4 + 1) 0
      ≡ get_or packed (4 * pair (4 / 2) 1 + second_offset false) 0)
    × (get_or (yuyv422_to_yuv420sp packed planes 4 2 false) (2 * 4 + 2 * 4 / 4 + 1) 0
        ≡ get_or packed (4 * pair (4 / 2) 1 + third_offset false) 0)
yuyv422_to_yuv420sp-chroma_example =
    yuyv422_to_yuv420sp-chroma packed planes 4 2 false 1 refl refl (omega arith) (omega arith)

-- The camera opens, the buffers are given, and the frames are converted.
abbrev setup : Setup
setup = record { i420 = true; opens = λ n. has_input; allocates = λ n. true }

setup-Opens : Opens setup
setup-Opens = record { inputs = λ n. refl; memory = λ n. refl }

-- A camera that does not open: the first frame uses a stream that is not there.
not_opened :
    (run
      (record setup { opens = λ n. no_input })
      (commands cmd_open ∷ talks ∷ captures ∷ captures ∷ [])
      at_start).faults
    ≡ uses_dead_stream ∷ []
unfolding run at_start step
not_opened = refl

-- An open, and the thread on its way to a frame; then a close that waits.
abbrev opening_moves : List Move
opening_moves = commands cmd_open ∷ talks ∷ captures ∷ []

abbrev closing_moves : List Move
closing_moves = commands cmd_open ∷ talks ∷ captures ∷ commands cmd_close ∷ talks ∷ []

abbrev closing : Server
closing = run setup closing_moves at_start

run-IsSafe_example : IsSafe (run setup closing_moves at_start)
run-IsSafe_example = run-IsSafe setup closing_moves setup-Opens (tt, (tt, (tt, (tt, (tt, tt)))))

opened-idle : (run setup opening_moves at_start).talker ≡ idle
unfolding run at_start step
opened-idle = refl

run-opened_example :
    let s = run setup opening_moves at_start in (s.faults ≡ []) × Delivers (opened s.history) s
run-opened_example = run-opened setup opening_moves setup-Opens (tt, (tt, (tt, tt))) opened-idle

closing-waits :
    (closing.talker ≡ waiting ends) × (closing.stop ≡ true) × (closing.capture ≡ reading)
unfolding run at_start step
closing-waits = (refl, refl, refl)

closing-IsBefore : IsBefore closing.capture
closing-IsBefore = rw closing-waits.2 tt

closing-held : (closing.joinable ≡ true) × (closing.stream_ctx ≡ live) × (closing.buf_list ≡ live)
unfolding run at_start step
closing-held = (refl, refl, refl)

run-completes_example :
    let t = run setup (captures ∷ captures ∷ captures ∷ captures ∷ talks ∷ talks ∷ []) closing in
    (t.talker ≡ after ends)
    × (t.capture ≡ absent)
    × (t.joinable ≡ false)
    × Closes (closing.open_close_count + 1) closing.faults t
run-completes_example =
    run-completes setup ends closing closing-waits.0 closing-waits.1 closing-IsBefore
      (closing-held.0, closing-held.1, closing-held.2)

-- Three devices, of which the second has no name file and the third is the virtual one.
abbrev device_fds : ℕ → ℤ
device_fds n = if n == 1 then negsuc 0 else pos (n + 3)

abbrev device_names : ℕ → List ℕ
device_names n = if n == 2 then codes "normal\n" else codes "webcam\n"

abbrev clear_memory : ℕ → List ℕ
clear_memory n = replicate 12 0

device_fds-nonzero : (n : ℕ) → is_zero (device_fds n) ≡ false
device_fds-nonzero n = ground arith

found_device : (find_device device_fds device_names clear_memory).0 ≡ some 2
unfolding find_device sys_entry contains c_string
found_device = refl

find_device-NonePassed_example :
    NonePassed
      (is_normal device_fds device_names clear_memory)
      0
      255
      (find_device device_fds device_names clear_memory).0
find_device-NonePassed_example =
    find_device-NonePassed device_fds device_names clear_memory (λ n. omega arith)
      device_fds-nonzero

device_index-fits_example : (length (device_index (some 7)) + 1 ≤ device_index_size) ↔ (7 < 10)
device_index-fits_example = device_index-fits 7 (omega arith)

-- A socket that connects and then gives capabilities.
abbrev kernel : Kernel
kernel = record {
  socket = λ n. pos 5;
  connect = λ n address. pos 0;
  send = λ n buf. pos (length buf);
  recv = λ n size flags. bytes (replicate size 0);
  errno = λ n. 0;
}

abbrev net : StreamClient
net = as_stream kernel

abbrev connected_sink : Sink.Sink net
connected_sink = record {
  socket = record {
    path = 47 ∷ [];
    socket = record { fd = pos 5; connected = true; calls = 2; log = [] };
  };
  should_continue = true;
  phase = polling;
  acts = signalled ∷ [];
}

abbrev fresh_sink : Sink.Sink net
fresh_sink = started (record { path = 47 ∷ []; socket = fresh })

-- The thread waits, the socket connects, and the capability is asked for.
abbrev asks : List Negotiation.Move
asks =
    Negotiation.advances
    ∷ Negotiation.talks proceeds
    ∷ Negotiation.advances
    ∷ Negotiation.advances
    ∷ []

asked_once : (Negotiation.run net 256 0 [] asks (Negotiation.at_start fresh_sink)).gets ≡ 1
unfolding Negotiation.run Negotiation.advance Negotiation.talker_move Negotiation.in_reset
    Reset.talk Reset.signals Talker.step connect Sink.prepare Reset.signal
    Reset.reset_camera_capability Negotiation.in_get Waiting.notifications
asked_once = refl

abbrev misses : List Negotiation.Move
misses = Negotiation.advances ∷ Negotiation.talks (polls timeout) ∷ Negotiation.advances ∷ []

misses-IsUnsignalled : IsUnsignalled net 256 0 [] misses (Negotiation.at_start connected_sink)
unfolding Negotiation.move Reset.talk Negotiation.advance Talker.step Negotiation.in_reset
misses-IsUnsignalled = (refl, tt)

run-missed_example :
    let x = Negotiation.run net 256 0 [] misses (Negotiation.at_start connected_sink) in
    (x.gets ≡ 0) × (x.sets ≡ 0)
run-missed_example = run-missed net 256 0 [] misses connected_sink misses-IsUnsignalled

-- Four buffers for frames of two rows of four pixels.
abbrev capturing : Capture net
capturing = record { socket = connected_sink.socket; buf_list = replicate 4 planes; buf_count = 5 }
