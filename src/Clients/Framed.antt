-- ===== src/Clients/Framed.antt =====
-- host_camera_service/camera_socket_client.cc: it sends a file over a stream socket without VideoSink,
-- in pieces that each follow their size.
pub mod Frames
use host_camera_server.Base.{
  ℕ, zero, suc, ◌+◌, ◌/◌, ◌%◌, List, [], ◌∷◌, ◌++◌, Bool, true, false, ◌==◌, Option, none, some,
  is_neg, pos_part, length, take, drop, get_or, bytes_of_words, words_of_bytes, if◌then◌else◌,
}
use host_camera_server.Net.Kernel.{IoResult, Outcome, returned, threw}
use host_camera_server.Net.Client.{StreamClient}
use host_camera_server.Talker.{is_size}
use host_camera_server.Video.Sink.{overlay}

-- sizeof(camera_socket_info_t), and its `cmd`.
abbrev pub info_size : ℕ
info_size = 32

unfoldable pub info_cmd : List ℕ → ℕ
info_cmd info = get_or (words_of_bytes info) 1 0

-- The room of `inbuf`: INBUF_SIZE + AV_INPUT_BUFFER_PADDING_SIZE.
abbrev pub room : ℕ
room = 4160

-- The eight bytes of a size_t.
unfoldable pub size_bytes : ℕ → List ℕ
size_bytes n = bytes_of_words (n % 4294967296 ∷ n / 4294967296 % 4294967296 ∷ [])

-- At the test of the loop, or out of it by `break`.
pub data Phase : Type 0 where
  looping broken : Phase

-- The socket, what fread() has left of the file, how often it was called, and the bytes that the
-- socket has taken.
pub record Sender (net : StreamClient) : Type 0 where
  pub socket : net.State
  pub rest : List ℕ
  pub reads : ℕ
  pub wire : List ℕ
  pub phase : Phase

-- How main() ends: it returns 0, it calls exit(), or it still sends.
pub data End : Type 0 where
  done : End
  left : ℕ → End
  busy : End

-- `file` is what the file holds, and `fails n` is whether the n-th fread() fails.
module _ (net : StreamClient) (file : List ℕ) (fails : ℕ → Bool) where
  -- Send() of all of a buffer, or `break`.
  unfoldable pub send_whole : List ℕ → Sender net → Sender net
  send_whole buf p =
      let (s, result) = net.send buf p.socket in
      record p {
        socket = s;
        wire = p.wire ++ take (pos_part result.size) buf;
        phase = if is_size result.size (length buf) then looping else broken;
      }

  unfoldable pub send_data : Phase → List ℕ → Sender net → Sender net
  send_data looping packet p = send_whole packet p
  send_data broken packet p = p

  unfoldable pub send_frame : List ℕ → Sender net → Sender net
  send_frame packet p =
      let q = send_whole (size_bytes (length packet)) p in send_data q.phase packet q

  -- What follows a fread() that worked: the end of the file starts it again.
  unfoldable pub send_piece : List ℕ → Sender net → Sender net
  send_piece packet p = if length packet == 0 then record p { rest = file } else send_frame packet p

  unfoldable pub round : Sender net → Sender net
  round p =
      let q = record p { reads = p.reads + 1 } in
      if fails p.reads
      then record q { phase = broken }
      else send_piece (take room p.rest) (record q { rest = drop room p.rest })

  unfoldable pub loop_at : Phase → Sender net → Sender net
  unfolding round
  loop_at looping p = round p
  loop_at broken p = p

  unfoldable pub loop : ℕ → Sender net → Sender net
  unfolding loop_at
  loop zero p = p
  loop (suc n) p = loop n (loop_at p.phase p)

  abbrev pub first : net.State → Sender net
  first s = record { socket = s; rest = file; reads = 0; wire = []; phase = looping }

  -- Past the loop, the destructor of the client closes.
  unfoldable pub finish : Phase → net.State → net.State × End
  finish looping s = (s, busy)
  finish broken s = (net.close s, done)

  -- What main() does with the first message, of which the stack gives what was not received.
  unfoldable pub obey : ℕ → ℕ → net.State → net.State × End
  unfolding loop finish
  obey rounds cmd s =
      if cmd == 11
      then (let p = loop rounds (first s) in finish p.phase p.socket)
      else (net.close s, done)

  unfoldable pub listen : ℕ → List ℕ → net.State → net.State × End
  unfolding obey info_cmd
  listen rounds stack s =
      let (s1, result) = net.recv info_size 0 s in
      if is_neg result.size
      then (s1, left 1)
      else if pos_part result.size == 0
      then (s1, left 1)
      else obey rounds (info_cmd (overlay result.received stack)) s1

  unfoldable pub connected : ℕ → List ℕ → net.State → Outcome (Bool × Option ℕ) → net.State × End
  unfolding listen
  connected rounds stack s (threw errno) = (net.close s, done)
  connected rounds stack s (returned (true, error)) = listen rounds stack s
  connected rounds stack s (returned (false, error)) = (s, left 1)

  -- The try block of main() with an open file, for at most that many rounds of the loop.
  unfoldable pub main : ℕ → List ℕ → net.State → net.State × End
  unfolding connected
  main rounds stack s = let (s1, outcome) = net.connect s in connected rounds stack s1 outcome
