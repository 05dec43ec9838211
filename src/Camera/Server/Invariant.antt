-- ===== src/Camera/Server/Invariant.antt =====
-- The invariant of the callback and the capture thread of host_camera_service/host_camera_server.cc:
-- what holds in every interleaving.
use host_camera_server.Base.{
  ℕ, ◌+◌, ◌%◌, ◌≡◌, ◌≢◌, refl, ◌⊎◌, inl, inr, List, [], ◌∷◌, All, Bool, true, false, arith,
  if◌then◌else◌, ◌==◌, Bool-cases, u32,
}
use host_camera_server.Video.Wire.{Cmd, cmd_open, cmd_close, cmd_none, unknown}
use host_camera_server.Camera.Server.{
  Setup, has_input, Pointer, live, dangling, Fault, waits_unlocked, uses_dead_stream,
  uses_dead_buffer, needs, is_live, Then, reopens, ends, Pc, idle, opening, stopping, waiting,
  woken, joining, Capture, absent, testing, reading, sending, signalling, gone, Server, at_start,
  receive, enter_wait, release, join, start_stream, capture_step, talker_step, command_step, Move,
  commands, talks, captures, wakes, step, run,
}

-- The camera is closed: no thread, nothing to join, an even count.
pub record IsClosed (s : Server) : Type 0 where
  pub even : s.open_close_count % 2 ≡ 0
  pub no_thread : s.capture ≡ absent
  pub nothing_to_join : s.joinable ≡ false
  pub no_live : s.buf_list ≢ live
  pub unlocked : s.thread_lock ≡ false

-- The camera is open: a capture thread, with its stream and its buffers, and an odd count.
pub record IsOpen (s : Server) : Type 0 where
  pub odd : s.open_close_count % 2 ≡ 1
  pub thread : s.capture ≢ absent
  pub to_join : s.joinable ≡ true
  pub stream : s.stream_ctx ≡ live
  pub buffers : s.buf_list ≡ live

-- The thread is still in its loop.
abbrev pub IsLooping : Capture → Type 0
IsLooping testing = Unit {0}
IsLooping reading = Unit {0}
IsLooping sending = Unit {0}
IsLooping _ = ⊥

-- What the callback's place says of the rest of the state.
abbrev pub At : Pc → Server → Type 0
At idle s =
    (s.faults ≡ [])
    × (IsClosed s ⊎ (IsOpen s × (s.thread_lock ≡ true) × (s.stop ≡ false) × IsLooping s.capture))
At opening s = (s.faults ≡ []) × IsClosed s
At (stopping k) s =
    (s.faults ≡ [])
    × (s.stop ≡ true)
    × (((k ≡ ends) × IsClosed s) ⊎ (IsOpen s × (s.thread_lock ≡ true)))
At (waiting k) s =
    (s.stop ≡ true)
    × (((s.faults ≡ waits_unlocked ∷ []) × (k ≡ ends) × IsClosed s) ⊎ ((s.faults ≡ []) × IsOpen s))
At (woken k) s = (s.faults ≡ []) × IsOpen s × (s.capture ≡ gone)
At (joining k) s =
    (s.faults ≡ [])
    × (s.open_close_count % 2 ≡ 1)
    × (s.capture ≡ gone)
    × (s.joinable ≡ true)
    × (s.buf_list ≡ dangling)
    × (s.thread_lock ≡ false)

-- The invariant of every interleaving without spurious returns.
abbrev pub Inv : Server → Type 0
Inv s = At s.talker s

receive-At : (c : Cmd) (s : Server) → At idle s → s.talker ≡ idle → Inv (receive c s)
unfolding receive
receive-At cmd_open s h e = elim (Bool-cases (s.open_close_count % 2 == 0)) [
  | inl even ↦ rw (even, receive) (ground (arith, h))
  | inr odd ↦ rw (odd, receive) (ground (arith, h))
]
receive-At cmd_close s h e = ground (arith, h)
receive-At cmd_none s h e = simp e (ground (arith, h))
receive-At (unknown n) s h e = simp e (ground (arith, h))

enter_wait-At : (k : Then) (s : Server) → At (stopping k) s → Inv (enter_wait k s)
unfolding enter_wait
enter_wait-At k s h = ground arith

release-At : (k : Then) (s : Server) → At (woken k) s → Inv (release k s)
unfolding release
release-At k s h = ground arith

join-At : (k : Then) (s : Server) → At (joining k) s → Inv (join k s)
unfolding join
join-At reopens s h = ground arith
join-At ends s h = ground arith

-- Every open_camera gives an open input, and every calloc its memory.
pub record Opens (setup : Setup) : Type 0 where
  pub inputs : (n : ℕ) → setup.opens n ≡ has_input
  pub memory : (n : ℕ) → setup.allocates n ≡ true

start_stream-At :
    (setup : Setup) (s : Server) → Opens setup → At opening s → Inv (start_stream setup s)
unfolding start_stream
start_stream-At setup s g h =
    let n = s.open_close_count in rw (g.inputs n, g.memory n) (ground arith)

command_step-Inv : (p : Pc) (c : Cmd) (s : Server) → s.talker ≡ p → Inv s → Inv (command_step p c s)
unfolding command_step
command_step-Inv idle c s e i = receive-At c s (simp e at i) e
command_step-Inv opening c s e i = i
command_step-Inv (stopping k) c s e i = i
command_step-Inv (waiting k) c s e i = i
command_step-Inv (woken k) c s e i = i
command_step-Inv (joining k) c s e i = i

talker_step-Inv :
    (setup : Setup) (p : Pc) (s : Server)
    → Opens setup
    → s.talker ≡ p
    → Inv s
    → Inv (talker_step setup p s)
unfolding talker_step
talker_step-Inv setup idle s g e i = i
talker_step-Inv setup opening s g e i = start_stream-At setup s g (simp e at i)
talker_step-Inv setup (stopping k) s g e i = enter_wait-At k s (simp e at i)
talker_step-Inv setup (waiting k) s g e i = i
talker_step-Inv setup (woken k) s g e i = release-At k s (simp e at i)
talker_step-Inv setup (joining k) s g e i = join-At k s (simp e at i)

needs-live : (q : Pointer) (f : Fault) (s : Server) → q ≡ live → needs (is_live q) f s ≡ s
needs-live q f s e = rw e refl

looping-absent : (c : Capture) → IsLooping c → c ≢ absent
looping-absent testing l e = cc
looping-absent reading l e = cc
looping-absent sending l e = cc
looping-absent absent l e = l
looping-absent signalling l e = l
looping-absent gone l e = l

looping-gone : (c : Capture) → IsLooping c → c ≢ gone
looping-gone testing l e = cc
looping-gone reading l e = cc
looping-gone sending l e = cc
looping-gone absent l e = l
looping-gone signalling l e = l
looping-gone gone l e = l

-- While the thread is in its loop the camera is open, and a step inside the loop changes nothing else.
pub looping-At :
    (p : Pc) (s : Server) (c : Capture) (n : ℕ)
    → IsLooping s.capture
    → IsLooping c
    → At p s
    → IsOpen s × At p (record s { capture = c; buf_count = n })
looping-At idle s c n l l' i =
    ground (arith, looping-absent s.capture l, looping-gone s.capture l, looping-absent c l')
looping-At opening s c n l l' i =
    ground (arith, looping-absent s.capture l, looping-gone s.capture l, looping-absent c l')
looping-At (stopping k) s c n l l' i =
    ground (arith, looping-absent s.capture l, looping-gone s.capture l, looping-absent c l')
looping-At (waiting k) s c n l l' i =
    ground (arith, looping-absent s.capture l, looping-gone s.capture l, looping-absent c l')
looping-At (woken k) s c n l l' i =
    ground (arith, looping-absent s.capture l, looping-gone s.capture l, looping-absent c l')
looping-At (joining k) s c n l l' i =
    ground (arith, looping-absent s.capture l, looping-gone s.capture l, looping-absent c l')

testing-At :
    (p : Pc) (s : Server)
    → s.capture ≡ testing
    → At p s
    → At p (record s { capture = if s.stop then signalling else reading })
testing-At idle s e i = ground (arith, i)
testing-At opening s e i = ground (arith, i)
testing-At (stopping k) s e i = ground (arith, i)
testing-At (waiting k) s e i = ground (arith, i)
testing-At (woken k) s e i = ground (arith, i)
testing-At (joining k) s e i = ground (arith, i)

signalling-Inv :
    (p : Pc) (s : Server)
    → s.capture ≡ signalling
    → At p s
    → Inv (record s { talker = elim p [ waiting k ↦ woken k | pc ↦ pc ]; capture = gone })
signalling-Inv idle s e i = ground (arith, i)
signalling-Inv opening s e i = ground (arith, i)
signalling-Inv (stopping k) s e i = ground (arith, i)
signalling-Inv (waiting k) s e i = ground (arith, i)
signalling-Inv (woken k) s e i = ground (arith, i)
signalling-Inv (joining k) s e i = ground (arith, i)

capture_step-Inv :
    (i420 : Bool) (c : Capture) (s : Server) → s.capture ≡ c → Inv s → Inv (capture_step i420 c s)
unfolding capture_step
capture_step-Inv i420 absent s e i = i
capture_step-Inv i420 gone s e i = i
capture_step-Inv i420 testing s e i = testing-At s.talker s e i
capture_step-Inv i420 signalling s e i = signalling-Inv s.talker s e i
capture_step-Inv i420 reading s e i =
    let (o, next) = looping-At s.talker s sending s.buf_count (rw e tt) tt i in
    rw (needs-live s.stream_ctx uses_dead_stream s o.stream) next
capture_step-Inv true sending s e i =
    let (o, next) = looping-At s.talker s testing (u32 (s.buf_count + 1)) (rw e tt) tt i in
    rw (needs-live s.buf_list uses_dead_buffer s o.buffers) next
capture_step-Inv false sending s e i =
    (looping-At s.talker s testing (u32 (s.buf_count + 1)) (rw e tt) tt i).1

-- A move that is not a spurious return.
abbrev pub IsCalm : Move → Type 0
IsCalm wakes = ⊥
IsCalm _ = Unit {0}

pub step-Inv :
    (setup : Setup) (m : Move) (s : Server) → Opens setup → IsCalm m → Inv s → Inv (step setup m s)
unfolding step
step-Inv setup (commands c) s g calm i = command_step-Inv s.talker c s refl i
step-Inv setup talks s g calm i = talker_step-Inv setup s.talker s g refl i
step-Inv setup captures s g calm i = capture_step-Inv setup.i420 s.capture s refl i
step-Inv setup wakes s g calm i = absurd calm

pub run-Inv :
    (setup : Setup) (ms : List Move) (s : Server)
    → Opens setup
    → All IsCalm ms
    → Inv s
    → Inv (run setup ms s)
unfolding run
run-Inv setup [] s g calm i = i
run-Inv setup (m ∷ ms) s g calm i =
    run-Inv setup ms (step setup m s) g calm.1 (step-Inv setup m s g calm.0 i)

pub at_start-Inv : Inv at_start
unfolding at_start
at_start-Inv = ground arith
