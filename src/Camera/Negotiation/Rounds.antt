-- ===== src/Camera/Negotiation/Rounds.antt =====
-- The order of what InitCamera does, and a connection that it misses.
use host_camera_server.Base.{ℕ, ◌≡◌, ◌≢◌, refl, List, [], ◌∷◌, arith}
use host_camera_server.Net.Client.{StreamClient}
use host_camera_server.Talker.{Event}
use host_camera_server.Video.Wire.{CameraInfo}
use host_camera_server.Video.Sink.{Sink}
use host_camera_server.Video.Reset.{Sleeper, roused, reset_camera_capability, signals, talk}
use host_camera_server.Camera.Negotiation.{
  Negotiation, resetting, Move, talks, advances, rouses, wakes, talker_move, in_reset, advance,
  move, run, at_start,
}

module _ (net : StreamClient) (msg_waitall size : ℕ) (infos : List CameraInfo) where
  -- The talker thread does not signal, and the wait for the signal does not return by itself.
  abbrev pub IsUnsignalled : List Move → Negotiation net → Type 0
  IsUnsignalled [] x = Unit {0}
  IsUnsignalled (talks e ∷ ms) x =
      (signals (talk net msg_waitall e (x.exchange.sink, x.sleeper)).0.acts
        ≡ signals x.exchange.sink.acts)
      × IsUnsignalled ms (move net msg_waitall size infos (talks e) x)
  IsUnsignalled (advances ∷ ms) x = IsUnsignalled ms (move net msg_waitall size infos advances x)
  IsUnsignalled (rouses ∷ ms) x = ⊥
  IsUnsignalled (wakes ∷ ms) x = IsUnsignalled ms (move net msg_waitall size infos wakes x)

  -- InitCamera has not come back from its first wait.
  abbrev IsStuck : Negotiation net → Type 0
  IsStuck x = (x.stage ≡ resetting) × (x.sleeper ≢ roused) × (x.gets ≡ 0) × (x.sets ≡ 0)

  talk-unsignalled :
      (e : Event) (t : Sink net) (s : Sleeper)
      → signals (talk net msg_waitall e (t, s)).0.acts ≡ signals t.acts
      → (talk net msg_waitall e (t, s)).1 ≡ s
  unfolding talk
  talk-unsignalled e t s h = ground (arith, h)

  reset-IsStuck :
      (x : Negotiation net) → IsStuck x → IsStuck (advance net msg_waitall size infos x.stage x)
  unfolding advance in_reset reset_camera_capability
  reset-IsStuck x h = ground (arith, h)

  runs-IsStuck :
      (ms : List Move) (x : Negotiation net)
      → IsUnsignalled ms x
      → IsStuck x
      → IsStuck (run net msg_waitall size infos ms x)
  unfolding run move talker_move
  runs-IsStuck [] x q h = h
  runs-IsStuck (talks e ∷ ms) x q h =
      let same = talk-unsignalled e x.exchange.sink x.sleeper q.0 in
      runs-IsStuck ms (talker_move net msg_waitall size infos e x) q.1
        (h.0, ground (arith, h, same), h.2, h.3)
  runs-IsStuck (advances ∷ ms) x q h = runs-IsStuck ms _ q (reset-IsStuck x h)
  runs-IsStuck (rouses ∷ ms) x q h = absurd q
  runs-IsStuck (wakes ∷ ms) x q h = runs-IsStuck ms _ q h

  -- If InitCamera starts after the talker thread has connected and signalled, whatever the state of
  -- that thread is, it sends neither request until the thread connects again: as long as no further
  -- signal comes and the wait does not return by itself, it asks for nothing and tells nothing.
  pub run-missed :
      (ms : List Move) (t : Sink net)
      → IsUnsignalled ms (at_start t)
      → let x = run net msg_waitall size infos ms (at_start t) in (x.gets ≡ 0) × (x.sets ≡ 0)
  run-missed ms t q =
      let h = runs-IsStuck ms (at_start t) q (refl, ground arith, refl, refl) in (h.2, h.3)
