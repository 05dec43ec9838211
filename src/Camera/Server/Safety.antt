-- ===== src/Camera/Server/Safety.antt =====
-- What cannot go wrong between the callback and the capture thread of
-- host_camera_service/host_camera_server.cc.
use host_camera_server.Base.{◌≡◌, refl, ◌⊎◌, inl, inr, List, All}
use host_camera_server.Camera.Server.{
  Setup, live, waits_unlocked, Pc, idle, opening, stopping, waiting, woken, joining, Capture,
  absent, testing, reading, sending, signalling, gone, Server, at_start, Move, run,
}
use host_camera_server.Camera.Server.Invariant.{
  Opens, IsLooping, At, looping-At, IsCalm, run-Inv, at_start-Inv,
}

-- Nothing has gone wrong but a wait without the mutex, and a thread in its loop has its stream and
-- its buffers.
pub record IsSafe (s : Server) : Type 0 where
  pub faultless : All (λ f. f ≡ waits_unlocked) s.faults
  pub usable : (IsLooping s.capture → ⊥) ⊎ ((s.stream_ctx ≡ live) × (s.buf_list ≡ live))

At-faults : (p : Pc) (s : Server) → At p s → All (λ f. f ≡ waits_unlocked) s.faults
At-faults idle s i = rw i.0 tt
At-faults opening s i = rw i.0 tt
At-faults (stopping k) s i = rw i.0 tt
At-faults (waiting k) s (stop, inl closed) = rw closed.0 (refl, tt)
At-faults (waiting k) s (stop, inr opened) = rw opened.0 tt
At-faults (woken k) s i = rw i.0 tt
At-faults (joining k) s i = rw i.0 tt

IsLooping-cases : (c : Capture) → (IsLooping c → ⊥) ⊎ IsLooping c
IsLooping-cases testing = inr tt
IsLooping-cases reading = inr tt
IsLooping-cases sending = inr tt
IsLooping-cases absent = inl (λ l. l)
IsLooping-cases signalling = inl (λ l. l)
IsLooping-cases gone = inl (λ l. l)

-- If every open_camera gives an open input and every calloc its memory, then in every interleaving of
-- commands, callback and capture thread, however they come, that has no spurious return of
-- pthread_cond_wait: the capture thread never uses a stream or a buffer that is not allocated, nothing
-- is freed twice, no thread is joined that does not run or replaced while it does. The one thing that
-- can go wrong is to wait without the mutex.
pub run-IsSafe :
    (setup : Setup) (ms : List Move) → Opens setup → All IsCalm ms → IsSafe (run setup ms at_start)
run-IsSafe setup ms g calm =
    let s = run setup ms at_start in
    let i = run-Inv setup ms at_start g calm at_start-Inv in
    record {
      faultless = At-faults s.talker s i;
      usable = elim (IsLooping-cases s.capture) [
        | inl out ↦ inl out
        | inr within ↦
            let (o, _) = looping-At s.talker s s.capture s.buf_count within within i in
            inr (o.stream, o.buffers)
      ];
    }
