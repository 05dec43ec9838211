-- ===== src/Clients/Pushing.antt =====
-- The thread of host_camera_service/camera_client.cc and host_camera_service/audio_record_client.cc
-- that reads a file in pieces and sends them. The two differ in the size of a piece and in the
-- SendDataPacket that they call.
pub mod Passes
pub mod Sending
pub mod Stream
use host_camera_server.Base.{
  ℕ, zero, suc, ◌+◌, List, [], ◌∷◌, Bool, true, false, ◌||◌, ◌==◌, Option, none, some, is_neg,
  length, take, drop, ltb, if◌then◌else◌,
}
use host_camera_server.Net.Kernel.{IoResult}
use host_camera_server.Video.Sink.{overlay}

-- Where the thread is: before it opens the file, at the test of `stop`, past the test and before the
-- body of the loop, back from its function, or past an exit(), which ends the program.
pub data Phase : Type 0 where
  starting looping going ended : Phase
  exited : ℕ → Phase

-- The thread's socket, how often it has opened the file, what is left of the file, `inbuf`, and the
-- packets that it has sent, newest first.
pub record Pusher (S : Type 0) : Type 0 where
  pub socket : S
  pub opened : ℕ
  pub rest : List ℕ
  pub inbuf : List ℕ
  pub sent : List (List ℕ)
  pub phase : Phase

-- fstream::read, which goes on to the end of the file: what it stores, and whether it met the end.
unfoldable pub read : ℕ → List ℕ → List ℕ × Bool
read size bytes = (take size bytes, ltb (length bytes) size)

-- `files n` is what the n-th open finds: `none` where it fails.
module _ {S : Type 0} (files : ℕ → Option (List ℕ)) (size : ℕ)
    (send : List ℕ → S → S × IoResult) where
  unfoldable pub open_file : Pusher S → Pusher S
  open_file p = elim (files p.opened) [
    | none ↦ record p { opened = p.opened + 1; phase = exited 1 }
    | some bytes ↦ record p { opened = p.opened + 1; rest = bytes; phase = looping }
  ]

  -- SendDataPacket of the first `size` bytes of `inbuf`.
  unfoldable pub push : Pusher S → Pusher S
  push p =
      let (s, result) = send (take size p.inbuf) p.socket in
      record p {
        socket = s;
        sent = take size p.inbuf ∷ p.sent;
        phase = if is_neg result.size then exited 1 else looping;
      }

  -- The body of the loop.
  unfoldable pub body : Pusher S → Pusher S
  body p =
      let (bytes, eof) = read size p.rest in
      let p1 = record p { rest = drop size p.rest; inbuf = overlay bytes p.inbuf } in
      if length bytes == 0 || eof then open_file p1 else push p1

  -- The thread goes on by one opening, by one test of `stop`, or by the body: other threads may move
  -- in between.
  unfoldable pub step_at : Phase → Bool → Pusher S → Pusher S
  step_at starting stop p = open_file p
  step_at looping stop p = record p { phase = if stop then ended else going }
  step_at going stop p = body p
  step_at ended stop p = p
  step_at (exited n) stop p = p

  unfoldable pub step : Bool → Pusher S → Pusher S
  step stop p = step_at p.phase stop p

  -- The body after a test that lets the thread go on.
  unfoldable pub go_on : Phase → Pusher S → Pusher S
  go_on going p = body p
  go_on _ p = p

  -- One opening, or one test that finds `stop` false and the body.
  unfoldable pub turn : Pusher S → Pusher S
  unfolding step go_on
  turn p = let q = step false p in go_on q.phase q

  -- That many turns while `stop` is false.
  unfoldable pub turns : ℕ → Pusher S → Pusher S
  unfolding turn
  turns zero p = p
  turns (suc n) p = turns n (turn p)

-- The thread at its start, with what the stack holds in `inbuf`.
abbrev pub started : {S : Type 0} → S → List ℕ → Pusher S
started s stack = record {
  socket = s;
  opened = 0;
  rest = [];
  inbuf = stack;
  sent = [];
  phase = starting;
}

-- `inbuf_size` of camera_client.cc, and that of audio_record_client.cc.
abbrev pub frame_size : ℕ
frame_size = 4096

abbrev pub audio_size : ℕ
audio_size = 1920
