-- ===== src/Gps/Injection.antt =====
-- cmd_handler and injection_gps_data_thread of host_camera_service/virtual_gps_receiver_sample.cc,
-- step by step: the handler runs in the work thread of VirtualGpsReceiver.
pub mod Thread
use host_camera_server.Base.{ℕ, List, [], ◌∷◌, Bool, true, false, ℤ, is_neg, is_zero, if◌then◌else◌}

-- VirtualGpsReceiver::Command, and any other number.
pub data Order : Type 0 where
  quits starts stops others : Order

-- Where the injection thread is: there is none; at the test of `loop_quit`; before do_geo_fix; past
-- its end.
pub data Injector : Type 0 where
  absent testing injecting gone : Injector

-- What the program must not do.
pub data Misuse : Type 0 where
  drops_thread joins_nothing : Misuse

-- The globals that the handler and the thread share, with both threads; `joining` tells that the
-- handler is in pthread_join, and `joinable` that the thread `injection_thread_id` has not been joined.
pub record Session : Type 0 where
  pub injection_thread_flag : Bool
  pub loop_quit : Bool
  pub joining : Bool
  pub injector : Injector
  pub joinable : Bool
  pub misuses : List Misuse

unfoldable pub at_start : Session
at_start = record {
  injection_thread_flag = false;
  loop_quit = false;
  joining = false;
  injector = absent;
  joinable = false;
  misuses = [];
}

abbrev pub needs : Bool → Misuse → Session → Session
needs true m s = s
needs false m s = record s { misuses = m ∷ s.misuses }

-- The start of a thread, given what pthread_create returns, which nobody looks at: the globals are set
-- before it; if it succeeds, it overwrites the id of the old thread, and if it fails there is no new
-- thread.
unfoldable pub create : ℤ → Session → Session
create ret s =
    let t = record s { injection_thread_flag = true; loop_quit = false } in
    if is_zero ret
    then record (needs (if s.joinable then false else true) drops_thread t) {
      injector = testing;
      joinable = true;
    }
    else t

-- pthread_join is entered. Where no thread can be joined its behaviour is undefined; the model notes
-- the misuse and goes on.
unfoldable pub enter_join : Session → Session
enter_join s =
    if s.joinable
    then record s { joining = true }
    else record s { misuses = joins_nothing ∷ s.misuses }

-- The handler, given what pthread_create returns if it is called.
unfoldable pub cmd_handler : ℤ → Order → Session → Session
unfolding create enter_join
cmd_handler ret quits s = s
cmd_handler ret starts s = if s.injection_thread_flag then s else create ret s
cmd_handler ret stops s =
    if s.injection_thread_flag
    then enter_join (record s { loop_quit = true; injection_thread_flag = false })
    else s
cmd_handler ret others s = s

-- pthread_join returns once the thread is gone.
unfoldable pub join : Injector → Session → Session
join gone s = record s { joining = false; injector = absent; joinable = false }
join _ s = s

-- The thread up to its next step, given what do_geo_fix returns there; it sleeps for a second before
-- the next test.
unfoldable pub inject : ℤ → Injector → Session → Session
inject ret testing s = record s { injector = if s.loop_quit then gone else injecting }
inject ret injecting s = record s { injector = if is_neg ret then gone else testing }
inject ret absent s = s
inject ret gone s = s

-- Who moves next: the work thread with a command and what pthread_create returns to it, the join, or
-- the injection thread with what do_geo_fix returns.
pub data Move : Type 0 where
  orders : ℤ → Order → Move
  joins : Move
  injects : ℤ → Move

-- One move; one that is not possible in the state changes nothing.
unfoldable pub step : Move → Session → Session
unfolding cmd_handler join inject
step (orders ret o) s = if s.joining then s else cmd_handler ret o s
step joins s = if s.joining then join s.injector s else s
step (injects ret) s = inject ret s.injector s

-- The moves of an interleaving, the first one first.
unfoldable pub run : List Move → Session → Session
unfolding step
run [] s = s
run (m ∷ ms) s = run ms (step m s)
