-- ===== src/Gps/Worker/Stopping.antt =====
-- How the destructor of VirtualGpsReceiver ends the work thread.
use host_camera_server.Base.{ℕ, suc, ◌≡◌, refl, true, is_neg, some, arith}
use host_camera_server.Gps.Receiver.{GpsKernel, Receiver, disconnect}
use host_camera_server.Gps.Worker.{exits, work, work_for, destroy}

destroy-stops : (g : Receiver) → ((destroy g).stop ≡ true) × (is_neg (destroy g).sock ≡ true)
unfolding destroy disconnect
destroy-stops g = ground arith

work-stopped : (k : GpsKernel) (g : Receiver) → g.stop ≡ true → work k g ≡ some (g, exits)
unfolding work
work-stopped k g e = simp (e, work) refl

-- After the destructor has asked it to stop, the thread leaves its loop at the start of its next
-- round, with no call made after the destructor's, and no socket is left.
pub destroy-exits :
    (k : GpsKernel) (n : ℕ) (g : Receiver)
    → (work_for k (suc n) (destroy g) ≡ some (destroy g, exits)) × (is_neg (destroy g).sock ≡ true)
unfolding work_for
destroy-exits k n g =
    let (stopped, shut) = destroy-stops g in
    (rw (work_for, work-stopped k (destroy g) stopped), shut)
