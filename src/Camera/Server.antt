-- ===== src/Camera/Server.antt =====
-- The callback of main() in host_camera_service/host_camera_server.cc and the capture thread that it
-- starts and stops, step by step: the callback runs in the talker thread of VideoSink, beside the
-- capture thread.
pub mod Invariant
pub mod Safety
pub mod Completing
pub mod History
use host_camera_server.Base.{
  ℕ, ◌+◌, ◌%◌, List, [], ◌∷◌, Bool, true, false, if◌then◌else◌, ◌==◌, u32,
}
use host_camera_server.Video.Wire.{Cmd, cmd_open, cmd_close, cmd_none, unknown}

-- A pointer: to nothing, to memory that is allocated, to a stream without an open input, or to memory
-- that has been freed.
pub data Pointer : Type 0 where
  null live unopened dangling : Pointer

-- How open_camera ends: with an open input, with avformat_open_input failed, or with malloc failed.
pub data Opening : Type 0 where
  has_input no_input no_memory : Opening

-- Whether the frames are converted (v4l2_format is kI420), and, for each value of open_close_count at
-- which a stream is started, how open_camera ends and whether every calloc of the buffers succeeds.
pub record Setup : Type 0 where
  pub i420 : Bool
  pub opens : ℕ → Opening
  pub allocates : ℕ → Bool

-- What the program must not do.
pub data Fault : Type 0 where
  uses_dead_stream uses_dead_buffer frees_twice closes_dead_stream : Fault
  waits_unlocked starts_twice joins_nothing : Fault

-- What the callback goes on with once the old instance is closed.
pub data Then : Type 0 where
  reopens ends : Then

-- Where the talker thread is: not in the callback; before pthread_cond_wait, with `stop` set; in it;
-- past it; before join; and before the part that opens.
pub data Pc : Type 0 where
  idle opening : Pc
  stopping waiting woken joining : Then → Pc

-- Where the capture thread is: there is none; at the test of `stop`; before av_read_frame, before the
-- frame is sent, before the signal, past it.
pub data Capture : Type 0 where
  absent testing reading sending signalling gone : Capture

-- The variables of main() that the callback captures, and both threads; `buf_list` stands for its
-- four entries, which are allocated and freed together, and `history` has the commands, newest first.
pub record Server : Type 0 where
  pub stop : Bool
  pub open_close_count : ℕ
  pub thread_lock : Bool
  pub buf_list : Pointer
  pub stream_ctx : Pointer
  pub buf_count : ℕ
  pub talker : Pc
  pub capture : Capture
  pub joinable : Bool
  pub faults : List Fault
  pub history : List Cmd

unfoldable pub at_start : Server
at_start = record {
  stop = true;
  open_close_count = 0;
  thread_lock = false;
  buf_list = null;
  stream_ctx = null;
  buf_count = 0;
  talker = idle;
  capture = absent;
  joinable = false;
  faults = [];
  history = [];
}

abbrev pub is_live : Pointer → Bool
is_live live = true
is_live _ = false

abbrev pub is_held : Pointer → Bool
is_held live = true
is_held unopened = true
is_held _ = false

-- A fault is written down unless the condition holds.
abbrev pub needs : Bool → Fault → Server → Server
needs true f s = s
needs false f s = record s { faults = f ∷ s.faults }

abbrev pub is_frozen : Pointer → Bool
is_frozen dangling = false
is_frozen _ = true

-- free() of a null pointer does nothing.
unfoldable pub free_buffers : Server → Server
free_buffers s =
    let s1 = needs (is_frozen s.buf_list) frees_twice s in
    record s1 { buf_list = elim s.buf_list [ live ↦ dangling | p ↦ p ] }

-- avformat_close_input on both members, which may be null, free and the reset to NULL.
unfoldable pub close_stream : Server → Server
close_stream s =
    let s1 = needs (is_held s.stream_ctx) closes_dead_stream s in record s1 { stream_ctx = null }

-- The start of the callback.
unfoldable pub receive : Cmd → Server → Server
receive cmd_open s =
    let s1 = record s { buf_count = 0; history = cmd_open ∷ s.history } in
    if s.open_close_count % 2 == 0
    then record s1 { talker = opening }
    else record s1 { stop = true; talker = stopping reopens }
receive cmd_close s = record s {
  stop = true;
  talker = stopping ends;
  history = cmd_close ∷ s.history;
}
receive cmd_none s = record s { history = cmd_none ∷ s.history }
receive (unknown n) s = record s { history = unknown n ∷ s.history }

abbrev pub after : Then → Pc
after reopens = opening
after ends = idle

-- pthread_cond_wait is entered; it needs the mutex, and lets go of it while it waits.
unfoldable pub enter_wait : Then → Server → Server
enter_wait k s =
    let s1 = needs s.thread_lock waits_unlocked s in
    record s1 { thread_lock = false; talker = waiting k }

-- From the return of pthread_cond_wait, which has the mutex again, to the join.
unfoldable pub release : Then → Server → Server
unfolding free_buffers close_stream
release k s =
    let s1 = close_stream (free_buffers (record s { thread_lock = false })) in
    record s1 { talker = joining k }

-- join() returns once the capture thread is gone, and waits until then.
unfoldable pub join : Then → Server → Server
join k s =
    let s1 = needs s.joinable joins_nothing s in
    elim s.capture [
      | gone ↦ record s1 {
        capture = absent;
        joinable = false;
        open_close_count = s.open_close_count + 1;
        talker = after k;
      }
      | absent ↦ s1
      | _ ↦ s
    ]

-- What stream_ctx is after open_camera.
unfoldable pub open_camera : Opening → Pointer
open_camera has_input = live
open_camera no_input = unopened
open_camera no_memory = null

-- The part that opens, from pthread_mutex_lock on, which waits for the mutex: it ends with the start
-- of the thread, which must not replace a joinable one. What calloc and open_camera give is not
-- looked at.
unfoldable pub start_stream : Setup → Server → Server
unfolding open_camera
start_stream setup s =
    let s1 = needs (if s.joinable then false else true) starts_twice s in
    if s.thread_lock then s else record s1 {
      thread_lock = true;
      stop = false;
      buf_list = if setup.allocates s.open_close_count then live else null;
      stream_ctx = open_camera (setup.opens s.open_close_count);
      open_close_count = s.open_close_count + 1;
      capture = testing;
      joinable = true;
      talker = idle;
    }

-- The part of the capture thread up to its next step.
unfoldable pub capture_step : Bool → Capture → Server → Server
capture_step i420 testing s = record s { capture = if s.stop then signalling else reading }
capture_step i420 reading s = record (needs (is_live s.stream_ctx) uses_dead_stream s) {
  capture = sending;
}
capture_step i420 sending s =
    let s1 = if i420 then needs (is_live s.buf_list) uses_dead_buffer s else s in
    record s1 { buf_count = u32 (s.buf_count + 1); capture = testing }
capture_step i420 signalling s = record s {
  talker = elim s.talker [ waiting k ↦ woken k | pc ↦ pc ];
  capture = gone;
}
capture_step i420 absent s = s
capture_step i420 gone s = s

-- The part of the callback up to its next step; in pthread_cond_wait it has none.
unfoldable pub talker_step : Setup → Pc → Server → Server
unfolding enter_wait release join start_stream
talker_step setup idle s = s
talker_step setup (stopping k) s = enter_wait k s
talker_step setup (waiting k) s = s
talker_step setup (woken k) s = release k s
talker_step setup (joining k) s = join k s
talker_step setup opening s = start_stream setup s

-- pthread_cond_wait may also return without a signal.
unfoldable pub spurious_step : Pc → Server → Server
spurious_step (waiting k) s = record s { talker = woken k }
spurious_step _ s = s

-- A command comes in when the callback is not running.
unfoldable pub command_step : Pc → Cmd → Server → Server
unfolding receive
command_step idle c s = receive c s
command_step _ c s = s

-- Who moves next: VideoSink with a command, the callback, the capture thread, or a spurious return.
pub data Move : Type 0 where
  commands : Cmd → Move
  talks captures wakes : Move

-- One move; one that is not possible in the state changes nothing.
unfoldable pub step : Setup → Move → Server → Server
unfolding command_step talker_step capture_step spurious_step
step setup (commands c) s = command_step s.talker c s
step setup talks s = talker_step setup s.talker s
step setup captures s = capture_step setup.i420 s.capture s
step setup wakes s = spurious_step s.talker s

-- The moves of an interleaving, the first one first.
unfoldable pub run : Setup → List Move → Server → Server
run setup [] s = s
run setup (m ∷ ms) s = run setup ms (step setup m s)
