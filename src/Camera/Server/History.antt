-- ===== src/Camera/Server/History.antt =====
-- The commands that the callback of host_camera_service/host_camera_server.cc has taken, and what the
-- camera makes of them.
use host_camera_server.Base.{
  ℕ, ◌%◌, ◌≡◌, refl, inl, inr, List, [], ◌∷◌, All, Bool, true, false, arith, ◌==◌, Bool-cases,
}
use host_camera_server.Video.Wire.{Cmd, cmd_open, cmd_close, cmd_none, unknown}
use host_camera_server.Camera.Server.{
  Setup, Fault, uses_dead_stream, uses_dead_buffer, needs, is_live, Then, reopens, ends, Pc, idle,
  opening, stopping, waiting, woken, joining, Capture, absent, testing, reading, sending,
  signalling, gone, Server, at_start, receive, enter_wait, release, join, start_stream,
  capture_step, talker_step, command_step, Move, commands, talks, captures, wakes, step, run,
}
use host_camera_server.Camera.Server.Invariant.{
  Opens, IsClosed, IsOpen, IsLooping, At, Inv, IsCalm, step-Inv, at_start-Inv,
}

-- What the guest asked for last: the camera is to be open after CMD_OPEN, closed after CMD_CLOSE and
-- at first; the newest command comes first.
unfoldable pub opened : List Cmd → Bool
opened [] = false
opened (cmd_open ∷ h) = true
opened (cmd_close ∷ h) = false
opened (cmd_none ∷ h) = opened h
opened (unknown n ∷ h) = opened h

abbrev is_reopening : Then → Bool
is_reopening reopens = true
is_reopening ends = false

abbrev parity : Bool → ℕ
parity true = 1
parity false = 0

-- How the count and the history fit the place of the callback.
abbrev Fits : Pc → ℕ → List Cmd → Type 0
Fits idle n h = n % 2 ≡ parity (opened h)
Fits opening n h = opened h ≡ true
Fits (stopping k) n h = opened h ≡ is_reopening k
Fits (waiting k) n h = opened h ≡ is_reopening k
Fits (woken k) n h = opened h ≡ is_reopening k
Fits (joining k) n h = opened h ≡ is_reopening k

abbrev Tells : Server → Type 0
Tells s = Fits s.talker s.open_close_count s.history

abbrev TellsAt : Pc → Server → Type 0
TellsAt p s = Fits p s.open_close_count s.history

receive-Fits : (c : Cmd) (s : Server) → s.talker ≡ idle → TellsAt idle s → Tells (receive c s)
unfolding receive opened
receive-Fits cmd_open s e h = elim (Bool-cases (s.open_close_count % 2 == 0)) [
  | inl even ↦ rw (even, receive) (refl)
  | inr odd ↦ rw (odd, receive) (refl)
]
receive-Fits cmd_close s e h = refl
receive-Fits cmd_none s e h = simp e h
receive-Fits (unknown n) s e h = simp e h

join-Fits : (k : Then) (s : Server) → At (joining k) s → TellsAt (joining k) s → Tells (join k s)
unfolding join
join-Fits reopens s i h = ground arith
join-Fits ends s i h = ground arith

enter_wait-Fits : (k : Then) (s : Server) → TellsAt (stopping k) s → Tells (enter_wait k s)
unfolding enter_wait
enter_wait-Fits k s h = ground arith

release-Fits : (k : Then) (s : Server) → TellsAt (woken k) s → Tells (release k s)
unfolding release
release-Fits k s h = ground arith

start_stream-Fits :
    (setup : Setup) (s : Server) → At opening s → TellsAt opening s → Tells (start_stream setup s)
unfolding start_stream
start_stream-Fits setup s i h = ground arith

command_step-Fits :
    (p : Pc) (c : Cmd) (s : Server) → s.talker ≡ p → Tells s → Tells (command_step p c s)
unfolding command_step
command_step-Fits idle c s e h = receive-Fits c s e (simp e at h)
command_step-Fits opening c s e h = h
command_step-Fits (stopping k) c s e h = h
command_step-Fits (waiting k) c s e h = h
command_step-Fits (woken k) c s e h = h
command_step-Fits (joining k) c s e h = h

talker_step-Fits :
    (setup : Setup) (p : Pc) (s : Server)
    → s.talker ≡ p
    → Inv s
    → Tells s
    → Tells (talker_step setup p s)
unfolding talker_step
talker_step-Fits setup idle s e i h = h
talker_step-Fits setup opening s e i h = start_stream-Fits setup s (simp e at i) (simp e at h)
talker_step-Fits setup (stopping k) s e i h = enter_wait-Fits k s (simp e at h)
talker_step-Fits setup (waiting k) s e i h = h
talker_step-Fits setup (woken k) s e i h = release-Fits k s (simp e at h)
talker_step-Fits setup (joining k) s e i h = join-Fits k s (simp e at i) (simp e at h)

signalling-Fits :
    (p : Pc) (n : ℕ) (h : List Cmd) → Fits p n h → Fits (elim p [ waiting k ↦ woken k | r ↦ r ]) n h
signalling-Fits idle n h f = f
signalling-Fits opening n h f = f
signalling-Fits (stopping k) n h f = f
signalling-Fits (waiting k) n h f = f
signalling-Fits (woken k) n h f = f
signalling-Fits (joining k) n h f = f

needs-Tells : (b : Bool) (f : Fault) (s : Server) → Tells s → Tells (needs b f s)
needs-Tells true f s h = h
needs-Tells false f s h = h

capture_step-Fits :
    (i420 : Bool) (c : Capture) (s : Server) → Tells s → Tells (capture_step i420 c s)
unfolding capture_step
capture_step-Fits i420 absent s h = h
capture_step-Fits i420 gone s h = h
capture_step-Fits i420 testing s h = h
capture_step-Fits i420 signalling s h = signalling-Fits s.talker s.open_close_count s.history h
capture_step-Fits i420 reading s h = needs-Tells (is_live s.stream_ctx) uses_dead_stream s h
capture_step-Fits true sending s h = needs-Tells (is_live s.buf_list) uses_dead_buffer s h
capture_step-Fits false sending s h = h

step-Fits :
    (setup : Setup) (m : Move) (s : Server) → IsCalm m → Inv s → Tells s → Tells (step setup m s)
unfolding step
step-Fits setup (commands c) s calm i h = command_step-Fits s.talker c s refl h
step-Fits setup talks s calm i h = talker_step-Fits setup s.talker s refl i h
step-Fits setup captures s calm i h = capture_step-Fits setup.i420 s.capture s h
step-Fits setup wakes s calm i h = absurd calm

run-Fits :
    (setup : Setup) (ms : List Move) (s : Server)
    → Opens setup
    → All IsCalm ms
    → Inv s
    → Tells s
    → Inv (run setup ms s) × Tells (run setup ms s)
unfolding run
run-Fits setup [] s g calm i h = (i, h)
run-Fits setup (m ∷ ms) s g calm i h =
    run-Fits setup ms (step setup m s) g calm.1 (step-Inv setup m s g calm.0 i)
      (step-Fits setup m s calm.0 i h)

-- What the guest may count on between two commands.
abbrev pub Delivers : Bool → Server → Type 0
Delivers true s = IsOpen s × (s.stop ≡ false) × IsLooping s.capture
Delivers false s = IsClosed s

Tells-Delivers :
    (b : Bool) (s : Server) → At idle s → s.open_close_count % 2 ≡ parity b → Delivers b s
Tells-Delivers true s i h = ground arith
Tells-Delivers false s i h = ground arith

at_start-Tells : Tells at_start
unfolding at_start opened
at_start-Tells = refl

-- If every open_camera gives an open input and every calloc its memory, then in every interleaving
-- without spurious returns, whenever the callback is not running, nothing has gone wrong, and the camera is what the last CMD_OPEN or CMD_CLOSE that was taken asks for: after an
-- open the thread is in its loop with a live stream and live buffers and is not told to stop, and
-- after a close, or before any of the two, there is no thread.
pub run-opened :
    (setup : Setup) (ms : List Move)
    → Opens setup
    → All IsCalm ms
    → (run setup ms at_start).talker ≡ idle
    → let s = run setup ms at_start in (s.faults ≡ []) × Delivers (opened s.history) s
run-opened setup ms g calm e =
    let s = run setup ms at_start in
    let (i, h) = run-Fits setup ms at_start g calm at_start-Inv at_start-Tells in
    let at_idle : At idle s = simp e at i in
    (at_idle.0, Tells-Delivers (opened s.history) s at_idle (simp e at h))
