-- ===== src/Clients/Pushing/Sending.antt =====
-- What the thread of Pushing puts on its connection, whatever SendDataPacket makes of a packet.
use host_camera_server.Base.{
  ◌||◌, ◌==◌, ℕ, zero, suc, ◌≤◌, ◌≡◌, refl, sym, ap, ◌∙◌, inl, inr, List, [], ◌∷◌, ◌++◌, false,
  Option, length, take, drop, arith, append-nil, append_assoc, length-take, Option-cases,
  Bool-cases,
}
use host_camera_server.Net.Kernel.{IoResult}
use host_camera_server.Video.Sink.{overlay}
use host_camera_server.Clients.Pushing as Pushing
use host_camera_server.Clients.Pushing.{
  Pusher, Phase, open_file, push, body, step_at, step, go_on, turn, turns,
}
use host_camera_server.Clients.Pushing.Passes.{sent_after}

open_file-keeps :
    {S : Type 0} (files : ℕ → Option (List ℕ)) (size : ℕ) (send : List ℕ → S → S × IoResult)
    (p : Pusher S)
    → ((open_file files size send p).sent ≡ p.sent)
      × ((open_file files size send p).socket ≡ p.socket)
unfolding open_file
open_file-keeps files size send p = elim (Option-cases (files p.opened)) [
  | inl missing ↦ rw (open_file, missing) (refl, refl)
  | inr (bytes, there) ↦ rw (open_file, there) (refl, refl)
]

-- The bytes of packets, oldest first, and newest first, if `enc` is what is sent for each.
module _ (enc : List ℕ → List ℕ) where
  abbrev pub carried : List (List ℕ) → List ℕ
  carried [] = []
  carried (packet ∷ packets) = enc packet ++ carried packets

  abbrev pub stream : List (List ℕ) → List ℕ
  stream [] = []
  stream (packet ∷ packets) = stream packets ++ enc packet

  pub stream-sent_after :
      (before packets : List (List ℕ))
      → stream (sent_after before packets) ≡ stream before ++ carried packets
  stream-sent_after before [] = sym (append-nil (stream before))
  stream-sent_after before (p ∷ ps) =
      stream-sent_after (p ∷ before) ps ∙ append_assoc (stream before) (enc p) (carried ps)

-- `taken` is what the connection has taken.
module _ {S : Type 0} (taken : S → List ℕ) (files : ℕ → Option (List ℕ)) (size : ℕ)
    (send : List ℕ → S → S × IoResult) (enc : List ℕ → List ℕ)
    (sends : (packet : List ℕ) (s : S)
      → length packet ≤ size
      → taken (send packet s).0 ≡ taken s ++ enc packet) where
  -- A thread has sent packets whose bytes are behind those that were taken before it.
  abbrev pub Streams : List ℕ → Pusher S → Type 0
  Streams before p = taken p.socket ≡ before ++ stream enc p.sent

  push-Streams :
      (before : List ℕ) (p : Pusher S) → Streams before p → Streams before (push files size send p)
  unfolding push
  push-Streams before p h =
      let packet = take size p.inbuf in
      sends packet p.socket (omega (arith, length-take size p.inbuf))
      ∙ ap (λ (bs : List ℕ). bs ++ enc packet) h
      ∙ append_assoc before (stream enc p.sent) (enc packet)

  open_file-Streams :
      (before : List ℕ) (p : Pusher S)
      → Streams before p
      → Streams before (open_file files size send p)
  open_file-Streams before p h =
      let same = open_file-keeps files size send p in
      ap taken same.1 ∙ h ∙ ap (λ packets. before ++ stream enc packets) (sym same.0)

  body-Streams :
      (before : List ℕ) (p : Pusher S) → Streams before p → Streams before (body files size send p)
  unfolding body
  body-Streams before p h =
      let (bytes, eof) = Pushing.read size p.rest in
      let p1 = record p { rest = drop size p.rest; inbuf = overlay bytes p.inbuf } in
      elim (Bool-cases (length bytes == 0 || eof)) [
        | inl end ↦ rw (body, end) (open_file-Streams before p1 h)
        | inr piece ↦ rw (body, piece) (push-Streams before p1 h)
      ]

  step-Streams :
      (phase : Phase) (before : List ℕ) (p : Pusher S)
      → Streams before p
      → Streams before (step_at files size send phase false p)
  unfolding step_at
  step-Streams Pushing.starting before p h = open_file-Streams before p h
  step-Streams Pushing.looping before p h = h
  step-Streams Pushing.going before p h = body-Streams before p h
  step-Streams Pushing.ended before p h = h
  step-Streams (Pushing.exited n) before p h = h

  go_on-Streams :
      (phase : Phase) (before : List ℕ) (p : Pusher S)
      → Streams before p
      → Streams before (go_on files size send phase p)
  unfolding go_on
  go_on-Streams Pushing.going before p h = body-Streams before p h
  go_on-Streams Pushing.starting before p h = h
  go_on-Streams Pushing.looping before p h = h
  go_on-Streams Pushing.ended before p h = h
  go_on-Streams (Pushing.exited n) before p h = h

  pub turns-Streams :
      (n : ℕ) (before : List ℕ) (p : Pusher S)
      → Streams before p
      → Streams before (turns files size send n p)
  unfolding turns turn step
  turns-Streams zero before p h = h
  turns-Streams (suc n) before p h =
      let q = step files size send false p in
      turns-Streams n before (turn files size send p)
        (go_on-Streams q.phase before q (step-Streams p.phase before p h))
