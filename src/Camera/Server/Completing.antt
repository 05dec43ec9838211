-- ===== src/Camera/Server/Completing.antt =====
-- How the callback of host_camera_service/host_camera_server.cc closes an open camera.
use host_camera_server.Base.{
  ℕ, ◌+◌, ◌≡◌, refl, ap, inl, inr, List, Bool-cases, [], ◌∷◌, true, false, arith,
}
use host_camera_server.Camera.Server.{
  Setup, Pointer, live, null, dangling, is_live, needs, Fault, uses_dead_stream, uses_dead_buffer,
  Then, Pc, waiting, woken, after, Capture, absent, testing, reading, sending, signalling, gone,
  Server, talks, captures, step, run, capture_step, talker_step, release, join, joining,
}

-- How far the capture thread still has to go to its signal, once `stop` is set.
abbrev pub IsBefore : Capture → Type 0
IsBefore reading = Unit {0}
IsBefore sending = Unit {0}
IsBefore testing = Unit {0}
IsBefore signalling = Unit {0}
IsBefore _ = ⊥

-- What stays while the callback waits with `stop` set, until the capture thread signals.
abbrev Ahead : ℕ → List Fault → Then → Server → Type 0
Ahead n fs k s =
    (s.talker ≡ waiting k)
    × (s.stop ≡ true)
    × (s.open_close_count ≡ n)
    × (s.faults ≡ fs)
    × (s.joinable ≡ true)
    × (s.stream_ctx ≡ live)
    × (s.buf_list ≡ live)

-- What holds from the signal on.
abbrev Signalled : ℕ → List Fault → Then → Server → Type 0
Signalled n fs k s =
    (s.talker ≡ woken k)
    × (s.capture ≡ gone)
    × (s.open_close_count ≡ n)
    × (s.faults ≡ fs)
    × (s.joinable ≡ true)
    × (s.stream_ctx ≡ live)
    × (s.buf_list ≡ live)

needs_lem :
    (p : Pointer) (f : Fault) (s : Server) (n : ℕ) (fs : List Fault) (k : Then)
    → p ≡ live
    → Ahead n fs k s
    → Ahead n fs k (needs (is_live p) f s)
needs_lem p f s n fs k e h = rw e h

reading-Ahead :
    (setup : Setup) (s : Server) (n : ℕ) (fs : List Fault) (k : Then)
    → Ahead n fs k s
    → s.capture ≡ reading
    → Ahead n fs k (step setup captures s) × ((step setup captures s).capture ≡ sending)
unfolding step capture_step
reading-Ahead setup s n fs k h e =
    simp e (needs_lem s.stream_ctx uses_dead_stream s n fs k h.5 h, refl)

sending-Ahead :
    (setup : Setup) (s : Server) (n : ℕ) (fs : List Fault) (k : Then)
    → Ahead n fs k s
    → s.capture ≡ sending
    → Ahead n fs k (step setup captures s) × ((step setup captures s).capture ≡ testing)
unfolding step capture_step
sending-Ahead setup s n fs k h e = elim (Bool-cases setup.i420) [
  | inl on ↦ simp e (simp on (needs_lem s.buf_list uses_dead_buffer s n fs k h.6 h, refl))
  | inr off ↦ simp e (simp off (h, refl))
]

testing-Ahead :
    (setup : Setup) (s : Server) (n : ℕ) (fs : List Fault) (k : Then)
    → Ahead n fs k s
    → s.capture ≡ testing
    → Ahead n fs k (step setup captures s) × ((step setup captures s).capture ≡ signalling)
unfolding step capture_step
testing-Ahead setup s n fs k h e = simp e (simp h.1 ((h.0, refl, h.2, h.3, h.4, h.5, h.6), refl))

signalling-Signalled :
    (setup : Setup) (s : Server) (n : ℕ) (fs : List Fault) (k : Then)
    → Ahead n fs k s
    → s.capture ≡ signalling
    → Signalled n fs k (step setup captures s)
unfolding step capture_step
signalling-Signalled setup s n fs k h e = simp e (simp h.0 (refl, refl, h.2, h.3, h.4, h.5, h.6))

gone-Signalled :
    (setup : Setup) (s : Server) (n : ℕ) (fs : List Fault) (k : Then)
    → Signalled n fs k s
    → Signalled n fs k (step setup captures s)
unfolding step capture_step
gone-Signalled setup s n fs k h = simp h.1 (h.0, refl, h.2, h.3, h.4, h.5, h.6)

-- The old instance is gone: its buffers are freed, its stream is closed, and nothing went wrong.
abbrev pub Closes : ℕ → List Fault → Server → Type 0
Closes n fs s =
    (s.open_close_count ≡ n) × (s.faults ≡ fs) × (s.stream_ctx ≡ null) × (s.buf_list ≡ dangling)

release_lem :
    (s : Server) (n : ℕ) (fs : List Fault) (k : Then)
    → Signalled n fs k s
    → let t = release k s in
      (t.talker ≡ joining k) × (t.capture ≡ gone) × (t.joinable ≡ true) × Closes n fs t
unfolding release
release_lem s n fs k h = simp h.5 (simp h.6 (refl, h.1, h.4, (h.2, h.3, refl, refl)))

join_lem :
    (s : Server) (n : ℕ) (fs : List Fault) (k : Then)
    → (s.capture ≡ gone) × (s.joinable ≡ true) × Closes n fs s
    → let t = join k s in
      (t.talker ≡ after k) × (t.capture ≡ absent) × (t.joinable ≡ false) × Closes (n + 1) fs t
unfolding join
join_lem s n fs k h = ground arith

talks_lem :
    (setup : Setup) (p : Pc) (s : Server)
    → s.talker ≡ p
    → step setup talks s ≡ talker_step setup p s
unfolding step
talks_lem setup p s e = ap (λ q. talker_step setup q s) e

-- The join follows at once.
after_signal :
    (setup : Setup) (s : Server) (n : ℕ) (fs : List Fault) (k : Then)
    → Signalled n fs k s
    → let t = run setup (talks ∷ talks ∷ []) s in
      (t.talker ≡ after k) × (t.capture ≡ absent) × (t.joinable ≡ false) × Closes (n + 1) fs t
unfolding run talker_step
after_signal setup s n fs k h =
    let r = release_lem s n fs k h in
    rw (talks_lem setup (woken k) s h.0, talks_lem setup (joining k) (release k s) r.0)
      (join_lem (release k s) n fs k (r.1, r.2, r.3))

abbrev four : Setup → Server → Server
four setup s = run setup (captures ∷ captures ∷ captures ∷ captures ∷ []) s

-- Wherever the thread is before its signal, four steps are enough.
four-Signalled :
    (setup : Setup) (c : Capture) (s : Server) (n : ℕ) (fs : List Fault) (k : Then)
    → IsBefore c
    → s.capture ≡ c
    → Ahead n fs k s
    → Signalled n fs k (four setup s)
unfolding run
four-Signalled setup testing s n fs k b e h =
    let (h1, e1) = testing-Ahead setup s n fs k h e in
    let t = step setup captures s in
    let u = step setup captures t in
    gone-Signalled setup (step setup captures u) n fs k
      (gone-Signalled setup u n fs k (signalling-Signalled setup t n fs k h1 e1))
four-Signalled setup reading s n fs k b e h =
    let (h1, e1) = reading-Ahead setup s n fs k h e in
    let t = step setup captures s in
    let (h2, e2) = sending-Ahead setup t n fs k h1 e1 in
    let u = step setup captures t in
    let (h3, e3) = testing-Ahead setup u n fs k h2 e2 in
    signalling-Signalled setup (step setup captures u) n fs k h3 e3
four-Signalled setup sending s n fs k b e h =
    let (h1, e1) = sending-Ahead setup s n fs k h e in
    let t = step setup captures s in
    let (h2, e2) = testing-Ahead setup t n fs k h1 e1 in
    let u = step setup captures t in
    gone-Signalled setup (step setup captures u) n fs k (signalling-Signalled setup u n fs k h2 e2)
four-Signalled setup signalling s n fs k b e h =
    let t = step setup captures s in
    let u = step setup captures t in
    gone-Signalled setup (step setup captures u) n fs k (
      gone-Signalled setup u n fs k
        (gone-Signalled setup t n fs k (signalling-Signalled setup s n fs k h e)))
four-Signalled setup absent s n fs k b e h = absurd b
four-Signalled setup gone s n fs k b e h = absurd b

-- If the callback waits with `stop` set, a thread can be joined, its stream and its buffers are live,
-- and the capture thread has not yet signalled, then four steps of the thread and two of the callback
-- bring the callback past the join: the thread is joined, its buffers are freed and its stream is
-- closed, open_close_count is one more, nothing has gone wrong on the way, and the callback goes on.
pub run-completes :
    (setup : Setup) (k : Then) (s : Server)
    → s.talker ≡ waiting k
    → s.stop ≡ true
    → IsBefore s.capture
    → (s.joinable ≡ true) × (s.stream_ctx ≡ live) × (s.buf_list ≡ live)
    → let t = run setup (captures ∷ captures ∷ captures ∷ captures ∷ talks ∷ talks ∷ []) s in
      (t.talker ≡ after k)
      × (t.capture ≡ absent)
      × (t.joinable ≡ false)
      × Closes (s.open_close_count + 1) s.faults t
unfolding run
run-completes setup k s e stop before there =
    let n = s.open_close_count in
    after_signal setup (four setup s) n s.faults k (
      four-Signalled setup s.capture s n s.faults k before refl
        (e, stop, refl, refl, there.0, there.1, there.2))
