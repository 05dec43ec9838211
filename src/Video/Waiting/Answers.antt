-- ===== src/Video/Waiting/Answers.antt =====
-- When a caller of source/video_sink_impl.h gets its answer, and when it does not.
use host_camera_server.Base.{
  ℕ, suc, ◌≡◌, refl, ◌∙◌, List, [], ◌∷◌, Bool, true, false, arith, ltb, if◌then◌else◌,
}
use host_camera_server.Net.Client.{StreamClient}
use host_camera_server.Talker.{Revents}
use host_camera_server.Video.Sink.{serve}
use host_camera_server.Video.Waiting.{
  Caller, asking, waiting, answered, Exchange, notifications, notify, Move, gets, sets, waits,
  wakes, serves, get_camera_capability, set_camera_capability, step, run, enter,
}

-- A round that does not notify leaves the caller where it is.
stays : (m n : ℕ) (c : Caller) → n ≡ m → (if ltb m n then notify c else c) ≡ c
stays m n c h = ground arith

-- Whether the thread notifies or not, the caller then waits.
asks_stays : (b : Bool) → enter (if b then notify asking else asking) ≡ waiting
asks_stays true = refl
asks_stays false = refl

woken_up : (m n : ℕ) → n ≡ suc m → (if ltb m n then answered else waiting) ≡ answered
woken_up m n h = ground arith

module _ (net : StreamClient) (msg_waitall : ℕ) where
  -- No round of the thread notifies, and the wait does not return by itself.
  abbrev pub IsSilent : List (Move net msg_waitall) → Exchange net → Type 0
  IsSilent [] x = Unit {0}
  IsSilent (serves r ∷ ms) x =
      (notifications (serve net msg_waitall r x.sink).0.acts ≡ notifications x.sink.acts)
      × IsSilent ms (step net msg_waitall (serves r) x)
  IsSilent (wakes ∷ ms) x = ⊥
  IsSilent (gets size ∷ ms) x = IsSilent ms (step net msg_waitall (gets size) x)
  IsSilent (sets infos ∷ ms) x = IsSilent ms (step net msg_waitall (sets infos) x)
  IsSilent (waits ∷ ms) x = IsSilent ms (step net msg_waitall waits x)

  run-waiting :
      (ms : List (Move net msg_waitall)) (x : Exchange net)
      → IsSilent ms x
      → x.caller ≡ waiting
      → (run net msg_waitall ms x).caller ≡ waiting
  unfolding run get_camera_capability set_camera_capability
  run-waiting [] x s e = e
  run-waiting (serves r ∷ ms) x s e = run-waiting ms _ s.1 (stays _ _ x.caller s.0 ∙ e)
  run-waiting (wakes ∷ ms) x s e = absurd s
  run-waiting (gets size ∷ ms) x s e = run-waiting ms _ s (simp e refl)
  run-waiting (sets infos ∷ ms) x s e = run-waiting ms _ s (simp e refl)
  run-waiting (waits ∷ ms) x s e = run-waiting ms _ s (simp e refl)

  -- The wait has no predicate. If the thread handles the answer between the request and the wait, then
  -- the caller waits until the next notification, however long that takes.
  pub answer-lost :
      (r : Revents) (ms : List (Move net msg_waitall)) (x : Exchange net)
      → x.caller ≡ asking
      → IsSilent ms (run net msg_waitall (serves r ∷ waits ∷ []) x)
      → (run net msg_waitall (serves r ∷ waits ∷ ms) x).caller ≡ waiting
  unfolding run
  answer-lost r ms x e s = run-waiting ms _ s (simp e (asks_stays _))
