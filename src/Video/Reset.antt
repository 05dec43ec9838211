-- ===== src/Video/Reset.antt =====
-- ResetCameraCapabilty of source/video_sink_impl.h: a caller sleeps on `mSignalInit` until the talker
-- thread has connected.
use host_camera_server.Base.{ℕ, suc, List, [], ◌∷◌, ltb, if◌then◌else◌}
use host_camera_server.Net.Client.{StreamClient}
use host_camera_server.Talker.{Event, step}
use host_camera_server.Video.Sink.{Act, signalled, stored, notified, called, Sink, prepare, serve}

-- How often the thread has signalled `mSignalInit`.
unfoldable pub signals : List Act → ℕ
signals [] = 0
signals (signalled ∷ acts) = suc (signals acts)
signals (stored bs ∷ acts) = signals acts
signals (notified ∷ acts) = signals acts
signals (called cmd ∷ acts) = signals acts

-- A caller is before the wait, in it, or back from it.
pub data Sleeper : Type 0 where
  before sleeping roused : Sleeper

-- Into pthread_cond_wait.
unfoldable pub reset_camera_capability : Sleeper → Sleeper
reset_camera_capability before = sleeping
reset_camera_capability s = s

-- pthread_cond_signal wakes a caller that waits, and is lost on any other.
unfoldable pub signal : Sleeper → Sleeper
signal sleeping = roused
signal s = s

-- A move of the talker thread, with the caller after it.
unfoldable pub talk : (net : StreamClient) → ℕ → Event → Sink net × Sleeper → Sink net × Sleeper
talk net msg_waitall e (t, sleeper) =
    let t' = step net (prepare net msg_waitall) (serve net msg_waitall) e t in
    (t', if ltb (signals t.acts) (signals t'.acts) then signal sleeper else sleeper)
