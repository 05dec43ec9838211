-- ===== src/Talker.antt =====
-- The thread that VideoSink, SensorInterface, AudioSource and AudioSink run: it connects, polls the
-- socket, serves what comes, and connects again. The loop is the same text in the four Impl
-- constructors; what a connection is prepared with and how it is served are parameters.
pub mod Progress
use host_camera_server.Base.{
  ℕ, ◌≡◌, List, [], ◌∷◌, Bool, true, false, Option, none, some, ℤ, pos, negsuc, ◌==◌, if◌then◌else◌,
}
use host_camera_server.Net.Kernel.{IoResult, Outcome, returned, threw}
use host_camera_server.Net.Client.{StreamClient}

-- Where the thread is: at the test of the outer loop, in poll(), past the loop, or dead of an
-- exception that left the thread function.
pub data Phase : Type 0 where
  outer polling finished died : Phase

-- The thread's socket, `should_continue_`, and what it did for others, newest first.
pub record Talker (S A : Type 0) : Type 0 where
  pub socket : S
  pub should_continue : Bool
  pub phase : Phase
  pub acts : List A

-- `revents` of the one pollfd.
pub record Revents : Type 0 where
  pub pollin : Bool
  pub pollerr : Bool
  pub pollhup : Bool
  pub pollnval : Bool

-- What poll() returns: -1, 0 after the time-out, or the events.
pub data Poll : Type 0 where
  failure : ℕ → Poll
  timeout : Poll
  ready : Revents → Poll

-- How the body of the inner loop ends: at its condition (also by `continue`), by `break`, or by an
-- exception of the callback.
pub data Flow : Type 0 where
  again leave raise : Flow

-- `get<0>(response) == size`, of a ssize_t and a size_t.
abbrev pub is_size : ℤ → ℕ → Bool
is_size (pos n) size = n == size
is_size (negsuc n) size = false

pub data Event : Type 0 where
  proceeds stops : Event
  polls : Poll → Event

abbrev pub close_socket :
    {A : Type 0} (net : StreamClient) → Talker net.State A → Talker net.State A
close_socket net t = record t { socket = net.close t.socket }

module _ (net : StreamClient) {A : Type 0} (prepare : Talker net.State A → Talker net.State A)
    (serve : Revents → Talker net.State A → Talker net.State A × Flow) where
  -- The condition of the inner loop, or the way out of it.
  unfoldable pub after_body : Talker net.State A × Flow → Talker net.State A
  after_body (t, again) = record t { phase = if t.should_continue then polling else outer }
  after_body (t, leave) = record t { phase = outer }
  after_body (t, raise) = record t { phase = died }

  -- A call of poll() and the body of the inner loop.
  unfoldable pub poll_step : Poll → Talker net.State A → Talker net.State A
  unfolding after_body
  poll_step (failure errno) t = record t { phase = died }
  poll_step timeout t = after_body (t, again)
  poll_step (ready revents) t = after_body (serve revents t)

  -- What follows Connect(): a failure sleeps and goes back to the test.
  unfoldable pub after_connect : Outcome (Bool × Option ℕ) → Talker net.State A → Talker net.State A
  after_connect (threw errno) t = record t { phase = died }
  after_connect (returned (true, error)) t = record (prepare t) { phase = polling }
  after_connect (returned (false, error)) t = t

  -- The test of the outer loop, and the way to the inner one.
  unfoldable pub outer_step : Talker net.State A → Talker net.State A
  unfolding after_connect
  outer_step t =
      if t.should_continue
      then (if net.is_connected t.socket
          then record (prepare t) { phase = polling }
          else (let (s, outcome) = net.connect t.socket in
              after_connect outcome (record t { socket = s })))
      else record t { phase = finished }

  -- One event of the thread's life. An event that does not fit the phase changes nothing.
  unfoldable pub advance : Phase → Event → Talker net.State A → Talker net.State A
  unfolding poll_step outer_step
  advance phase stops t = record t { should_continue = false }
  advance outer proceeds t = outer_step t
  advance polling (polls p) t = poll_step p t
  advance _ _ t = t

  unfoldable pub step : Event → Talker net.State A → Talker net.State A
  unfolding advance
  step e t = advance t.phase e t

  unfoldable pub run : List Event → Talker net.State A → Talker net.State A
  run [] t = t
  run (e ∷ es) t = run es (step e t)

-- The thread at its start.
abbrev pub started : {S A : Type 0} → S → Talker S A
started s = record { socket = s; should_continue = true; phase = outer; acts = [] }
