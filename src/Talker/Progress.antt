-- ===== src/Talker/Progress.antt =====
-- The thread stops when it is asked to, and lives through everything but the two exceptions.
use host_camera_server.Base.{ℕ, ap, ◌∙◌, ◌≡◌, ◌≢◌, refl, [], ◌∷◌, false, arith}
use host_camera_server.Net.Client.{StreamClient}
use host_camera_server.Talker.{
  Talker, outer, polling, finished, Revents, Poll, failure, timeout, ready, Flow, again, leave,
  raise, proceeds, stops, polls, after_body, poll_step, outer_step, step, run,
}

-- A service that leaves `should_continue_` to the destructor and raises no exception.
pub record IsService (net : StreamClient) (A : Type 0)
    (serve : Revents → Talker net.State A → Talker net.State A × Flow) : Type 0 where
  pub serve_keeps :
      (r : Revents) (t : Talker net.State A) → (serve r t).0.should_continue ≡ t.should_continue
  pub calm : (r : Revents) (t : Talker net.State A) → (serve r t).1 ≢ raise

module _ (net : StreamClient) {A : Type 0} (prepare : Talker net.State A → Talker net.State A)
    (serve : Revents → Talker net.State A → Talker net.State A × Flow)
    (service : IsService net A serve) where
  after_body-stopped :
      (x : Talker net.State A × Flow)
      → x.0.should_continue ≡ false
      → x.1 ≢ raise
      → ((after_body net prepare serve x).phase ≡ outer)
        × ((after_body net prepare serve x).should_continue ≡ false)
  unfolding after_body
  after_body-stopped (t, again) h c = ground arith
  after_body-stopped (t, leave) h c = ground arith
  after_body-stopped (t, raise) h c = absurd (c refl)

  poll_step-stopped :
      (p : Poll) (t : Talker net.State A)
      → ((n : ℕ) → p ≢ failure n)
      → t.should_continue ≡ false
      → ((poll_step net prepare serve p t).phase ≡ outer)
        × ((poll_step net prepare serve p t).should_continue ≡ false)
  unfolding poll_step
  poll_step-stopped (failure n) t h k = absurd (h n refl)
  poll_step-stopped timeout t h k = after_body-stopped (t, again) k (λ e. cc)
  poll_step-stopped (ready r) t h k =
      after_body-stopped (serve r t) (service.serve_keeps r t ∙ k) (service.calm r t)

  outer_step-stopped :
      (t : Talker net.State A)
      → t.should_continue ≡ false
      → outer_step net prepare serve t ≡ record t { phase = finished }
  unfolding outer_step
  outer_step-stopped t k = rw (outer_step, k)

  step-stops :
      (t : Talker net.State A)
      → step net prepare serve stops t ≡ record t { should_continue = false }
  unfolding step
  step-stops t = refl

  step-polls :
      (p : Poll) (t : Talker net.State A)
      → t.phase ≡ polling
      → step net prepare serve (polls p) t ≡ poll_step net prepare serve p t
  unfolding step
  step-polls p t e = rw (step, e)

  step-proceeds :
      (t : Talker net.State A)
      → t.phase ≡ outer
      → step net prepare serve proceeds t ≡ outer_step net prepare serve t
  unfolding step
  step-proceeds t e = rw (step, e)

  -- If the service leaves `should_continue_` alone and raises no exception: a thread that waits in
  -- poll() when the destructor asks it to stop is past its loop once that poll() has returned, served
  -- or not, unless poll() fails.
  pub stops_after_poll :
      (t : Talker net.State A) (p : Poll)
      → ((n : ℕ) → p ≢ failure n)
      → t.phase ≡ polling
      → (run net prepare serve (stops ∷ polls p ∷ proceeds ∷ []) t).phase ≡ finished
  unfolding run
  stops_after_poll t p h e =
      let t1 : Talker net.State A = record t { should_continue = false } in
      let t2 = poll_step net prepare serve p t1 in
      let (at_test, still) = poll_step-stopped p t1 h refl in
      rw (step-stops t, step-polls p t1 e, step-proceeds t2 at_test)
        (ap (λ (u : Talker net.State A). u.phase) (outer_step-stopped t2 still))
