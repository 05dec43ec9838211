-- ===== src/Camera/Negotiation.antt =====
-- InitCamera of host_camera_service/host_camera_server.cc: the thread that waits for a connection, asks
-- the peer for its capability and tells it the cameras, round after round.
pub mod Rounds
use host_camera_server.Base.{ℕ, ◌+◌, List, [], ◌∷◌, ltb, if◌then◌else◌}
use host_camera_server.Net.Client.{StreamClient}
use host_camera_server.Talker.{Event, step, started}
use host_camera_server.Video.Wire.{CameraInfo}
use host_camera_server.Video.Sink.{Sink, prepare, serve}
use host_camera_server.Video.Waiting.{
  Caller, away, asking, waiting, answered, refused, Exchange, notifications, notify, enter,
  get_camera_capability, set_camera_capability,
}
use host_camera_server.Video.Reset.{
  Sleeper, before, sleeping, roused, reset_camera_capability, signal, talk,
}

-- Which of its three calls the thread is in.
pub data Stage : Type 0 where
  resetting getting setting : Stage

-- The sink and the caller of its requests, the wait of ResetCameraCapabilty, the stage, and how often
-- the thread has come back from that wait and has called GetCameraCapabilty and SetCameraCapabilty.
pub record Negotiation (net : StreamClient) : Type 0 where
  pub exchange : Exchange net
  pub sleeper : Sleeper
  pub stage : Stage
  pub resets : ℕ
  pub gets : ℕ
  pub sets : ℕ

-- Who moves next: the talker thread; InitCamera; or one of the two waits returns by itself.
pub data Move : Type 0 where
  talks : Event → Move
  advances rouses wakes : Move

-- `size` is what GetCameraCapabilty finds on the stack.
module _ (net : StreamClient) (msg_waitall size : ℕ) (infos : List CameraInfo) where
  unfoldable pub talker_move : Event → Negotiation net → Negotiation net
  talker_move e x =
      let (t, sleeper) = talk net msg_waitall e (x.exchange.sink, x.sleeper) in
      record x {
        exchange = record {
          sink = t;
          caller =
              if ltb (notifications x.exchange.sink.acts) (notifications t.acts)
              then notify x.exchange.caller
              else x.exchange.caller;
        };
        sleeper = sleeper;
      }

  -- ResetCameraCapabilty.
  unfoldable pub in_reset : Sleeper → Negotiation net → Negotiation net
  in_reset before x = record x { sleeper = reset_camera_capability before }
  in_reset sleeping x = x
  in_reset roused x = record x { sleeper = before; stage = getting; resets = x.resets + 1 }

  -- GetCameraCapabilty, up to its wait, and past it.
  unfoldable pub in_get : Caller → Negotiation net → Negotiation net
  in_get away x = record x {
    exchange = get_camera_capability net msg_waitall size away x.exchange;
    gets = x.gets + 1;
  }
  in_get asking x = record x { exchange = record x.exchange { caller = enter asking } }
  in_get waiting x = x
  in_get answered x = record x { exchange = record x.exchange { caller = away }; stage = setting }
  in_get refused x = record x { exchange = record x.exchange { caller = away }; stage = setting }

  -- SetCameraCapabilty, up to its wait, and past it.
  unfoldable pub in_set : Caller → Negotiation net → Negotiation net
  in_set away x = record x {
    exchange = set_camera_capability net msg_waitall infos away x.exchange;
    sets = x.sets + 1;
  }
  in_set asking x = record x { exchange = record x.exchange { caller = enter asking } }
  in_set waiting x = x
  in_set answered x = record x { exchange = record x.exchange { caller = away }; stage = resetting }
  in_set refused x = record x { exchange = record x.exchange { caller = away }; stage = resetting }

  -- InitCamera goes on, to the next point where it meets the talker thread.
  unfoldable pub advance : Stage → Negotiation net → Negotiation net
  advance resetting x = in_reset x.sleeper x
  advance getting x = in_get x.exchange.caller x
  advance setting x = in_set x.exchange.caller x

  unfoldable pub move : Move → Negotiation net → Negotiation net
  move (talks e) x = talker_move e x
  move advances x = advance x.stage x
  move rouses x = record x { sleeper = signal x.sleeper }
  move wakes x = record x { exchange = record x.exchange { caller = notify x.exchange.caller } }

  unfoldable pub run : List Move → Negotiation net → Negotiation net
  unfolding move
  run [] x = x
  run (m ∷ ms) x = run ms (move m x)

-- The thread at its start, beside the talker thread as it is then.
abbrev pub at_start : {net : StreamClient} → Sink net → Negotiation net
at_start t = record {
  exchange = record { sink = t; caller = away };
  sleeper = before;
  stage = resetting;
  resets = 0;
  gets = 0;
  sets = 0;
}
