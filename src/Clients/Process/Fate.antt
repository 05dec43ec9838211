-- ===== src/Clients/Process/Fate.antt =====
-- How the programs of Process end.
use host_camera_server.Base.{
  ap, is_neg, some, Bool-cases, ◌==◌, ◌||◌, length, take, ℕ, ◌≡◌, refl, ◌⊎◌, inl, inr, List, [],
  ◌∷◌, Bool, true, false, Option, Option-cases, arith, drop,
}
use host_camera_server.Net.Kernel.{IoResult}
use host_camera_server.Video.Sink.{overlay}
use host_camera_server.Clients.Pushing.{
  read, Phase, looping, going, ended, starting, exited, Pusher, open_file, push, body, step_at,
  step,
}
use host_camera_server.Clients.Process.{
  Order, opens, closes, unknown, alive, joining, terminated, gone, Process, Move, commands, turns,
  joins, call_back, join, thread_step, move, run, at_start,
}

-- What the commands alone say of the program: it waits for the first; it has been told to stream, and
-- then to close; or it was told something that it does not stand, or does not know.
pub data Fate : Type 0 where
  waiting streaming finishing crashed failed : Fate

abbrev pub next : Fate → Order → Fate
next waiting opens = streaming
next waiting closes = crashed
next waiting unknown = failed
next streaming opens = crashed
next streaming closes = finishing
next streaming unknown = failed
next finishing order = finishing
next crashed order = crashed
next failed order = failed

abbrev pub fate : Fate → List Move → Fate
fate f [] = f
fate f (commands order ∷ ms) = fate (next f order) ms
fate f (turns ∷ ms) = fate f ms
fate f (joins ∷ ms) = fate f ms

-- The thread has work to do.
abbrev pub Goes : Phase → Type 0
Goes phase = (phase ≡ starting) ⊎ (phase ≡ looping) ⊎ (phase ≡ going)

module _ {S : Type 0} where
  abbrev pub Streams : Process S → Type 0
  Streams p = (p.life ≡ alive) × (p.joinable ≡ true) × (p.stop ≡ false) × Goes p.pusher.phase

  abbrev pub Closing : Process S → Type 0
  Closing p =
      (p.life ≡ joining) × (p.stop ≡ true) × (Goes p.pusher.phase ⊎ (p.pusher.phase ≡ ended))

  -- The lives that a fate allows. A file that cannot be opened, or a packet that cannot be sent, ends
  -- the program with 1 once the thread runs.
  abbrev pub Agrees : Fate → Process S → Type 0
  Agrees waiting p = (p.life ≡ alive) × (p.joinable ≡ false) × (p.stop ≡ false)
  Agrees streaming p = Streams p ⊎ (p.life ≡ gone 1)
  Agrees finishing p = Closing p ⊎ (p.life ≡ gone 0) ⊎ (p.life ≡ gone 1)
  Agrees crashed p = (p.life ≡ terminated) ⊎ (p.life ≡ gone 1)
  Agrees failed p = p.life ≡ gone 1

  -- What is sent is what was sent, or, of a thread past the test of `stop`, one packet more.
  abbrev pub AtMostOne : Pusher S → Pusher S → Type 0
  AtMostOne p q =
      (q.sent ≡ p.sent) ⊎ ((p.phase ≡ going) × ((packet : List ℕ) × (q.sent ≡ packet ∷ p.sent)))

module _ {S : Type 0} (files : ℕ → Option (List ℕ)) (size : ℕ)
    (send : List ℕ → S → S × IoResult) where
  open_file-phase :
      (p : Pusher S)
      → ((open_file files size send p).phase ≡ looping)
        ⊎ ((open_file files size send p).phase ≡ exited 1)
  unfolding open_file
  open_file-phase p = elim (Option-cases (files p.opened)) [
    | inl missing ↦ inr (rw (open_file, missing) refl)
    | inr (bytes, found) ↦ inl (rw (open_file, found) refl)
  ]

  open_file-sent : (p : Pusher S) → (open_file files size send p).sent ≡ p.sent
  unfolding open_file
  open_file-sent p = elim (Option-cases (files p.opened)) [
    | inl missing ↦ rw (open_file, missing) refl
    | inr (bytes, found) ↦ rw (open_file, found) refl
  ]

  body-phase :
      (p : Pusher S)
      → ((body files size send p).phase ≡ looping) ⊎ ((body files size send p).phase ≡ exited 1)
  unfolding body push
  body-phase p = ground (
    arith,
    open_file-phase
        (record p { rest = drop size p.rest; inbuf = overlay (read size p.rest).0 p.inbuf }),
  )

  -- A step leaves the thread at work, or ends it when it is stopped, or the program with 1.
  step-phase :
      (p : Pusher S) (stop : Bool)
      → Goes p.phase
      → ((step files size send stop p).phase ≡ looping)
        ⊎ ((step files size send stop p).phase ≡ going)
        ⊎ ((step files size send stop p).phase ≡ exited 1)
        ⊎ (((step files size send stop p).phase ≡ ended) × (stop ≡ true))
  unfolding step step_at
  step-phase p stop goes = ground (arith, goes, open_file-phase p, body-phase p)

  step-ended :
      (p : Pusher S) (stop : Bool) → p.phase ≡ ended → (step files size send stop p).phase ≡ ended
  unfolding step step_at
  step-ended p stop h = ground (arith, h)

  move-Agrees :
      (f : Fate) (m : Move) (p : Process S)
      → Agrees f p
      → Agrees (fate f (m ∷ [])) (move files size send p.life m p)
  unfolding move call_back join thread_step
  move-Agrees waiting (commands order) p h = ground (arith, h)
  move-Agrees waiting turns p h = ground (arith, h)
  move-Agrees waiting joins p h = ground (arith, h)
  move-Agrees streaming (commands order) p h = ground (arith, h)
  move-Agrees streaming turns p h = ground (arith, h, step-phase p.pusher p.stop)
  move-Agrees streaming joins p h = ground (arith, h)
  move-Agrees finishing (commands order) p h = ground (arith, h)
  move-Agrees finishing turns p h =
      ground (arith, h, step-phase p.pusher p.stop, step-ended p.pusher p.stop)
  move-Agrees finishing joins p h = ground (arith, h)
  move-Agrees crashed (commands order) p h = ground (arith, h)
  move-Agrees crashed turns p h = ground (arith, h)
  move-Agrees crashed joins p h = ground (arith, h)
  move-Agrees failed (commands order) p h = ground (arith, h)
  move-Agrees failed turns p h = ground (arith, h)
  move-Agrees failed joins p h = ground (arith, h)

  runs-Agrees :
      (f : Fate) (ms : List Move) (p : Process S)
      → Agrees f p
      → Agrees (fate f ms) (run files size send ms p)
  unfolding run
  runs-Agrees f [] p h = h
  runs-Agrees f (commands order ∷ ms) p h =
      runs-Agrees (next f order) ms _ (move-Agrees f (commands order) p h)
  runs-Agrees f (turns ∷ ms) p h = runs-Agrees f ms _ (move-Agrees f turns p h)
  runs-Agrees f (joins ∷ ms) p h = runs-Agrees f ms _ (move-Agrees f joins p h)

  -- In every order of the commands and the steps of the thread, the program's life is one that the
  -- commands allow: it waits before the first; after OPEN it streams, or has exited with 1; after
  -- OPEN and then CLOSE it waits in join(), or has exited with 0, or with 1; a second OPEN, or a CLOSE
  -- that comes first, terminates it, unless it has exited with 1; and an unknown command makes it
  -- exit with 1.
  pub run-Agrees :
      (ms : List Move) (s : S) (stack : List ℕ)
      → Agrees (fate waiting ms) (run files size send ms (at_start s stack))
  run-Agrees ms s stack = runs-Agrees waiting ms (at_start s stack) (refl, refl, refl)

  module _ (found : (n : ℕ) → (bytes : List ℕ) × (files n ≡ some bytes))
      (sends : (packet : List ℕ) (s : S) → is_neg (send packet s).1.size ≡ false) where
    open_file-opens : (p : Pusher S) → (open_file files size send p).phase ≡ looping
    unfolding open_file
    open_file-opens p = rw (open_file, (found p.opened).1) refl

    body-loops :
        (p : Pusher S)
        → p.phase ≡ going
        → ((body files size send p).phase ≡ looping) × AtMostOne p (body files size send p)
    unfolding body push
    body-loops p e =
        let (bytes, eof) = read size p.rest in
        let p1 = record p { rest = drop size p.rest; inbuf = overlay bytes p.inbuf } in
        elim (Bool-cases (length bytes == 0 || eof)) [
          | inl end ↦ rw (body, end) (open_file-opens p1, inl (open_file-sent p1))
          | inr piece ↦
              rw (body, piece, push, sends (take size p1.inbuf) p1.socket)
                (refl, inr (e, (take size p1.inbuf, refl)))
        ]

    step_from :
        (p : Pusher S) (ph : Phase)
        → p.phase ≡ ph
        → step files size send true p ≡ step_at files size send ph true p
    unfolding step
    step_from p ph e = ap (λ q. step_at files size send q true p) e

    -- A stop is obeyed within two steps.
    steps_stopped :
        (p : Pusher S)
        → Goes p.phase
        → let q = step files size send true p in
          ((q.phase ≡ looping) ⊎ (q.phase ≡ ended))
          × ((step files size send true q).phase ≡ ended)
          × AtMostOne p (step files size send true q)
    unfolding step_at
    steps_stopped p (inl e) =
        let q = open_file files size send p in
        rw (step_from p starting e, step_from q looping (open_file-opens p))
          (inl (open_file-opens p), refl, inl (open_file-sent p))
    steps_stopped p (inr (inl e)) =
        rw (step_from p looping e, step_from (record p { phase = ended }) ended refl)
          (inr refl, refl, inl refl)
    steps_stopped p (inr (inr e)) =
        let (loops, at_most) = body-loops p e in
        let q = body files size send p in
        rw (step_from p going e, step_from q looping loops) (inl loops, refl, at_most)

    -- If the file can be opened at every opening and no SendDataPacket fails, a program that streams
    -- exits with 0 within two steps of its thread after CLOSE and the return of join(), wherever the
    -- thread is when the command comes; and after CLOSE it sends nothing more, or one packet if the
    -- thread was past the test of `stop`.
    pub run-closes :
        (p : Process S)
        → Streams p
        → let p' = run files size send (commands closes ∷ turns ∷ turns ∷ joins ∷ []) p in
          (p'.life ≡ gone 0) × AtMostOne p.pusher p'.pusher
    unfolding run move call_back thread_step join
    run-closes p h = ground (arith, h, steps_stopped p.pusher)
