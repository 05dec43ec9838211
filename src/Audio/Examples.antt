-- ===== src/Audio/Examples.antt =====
-- The audio theorems at concrete inputs.
use host_camera_server.Base.{
  ℕ, ◌≡◌, refl, List, [], ◌∷◌, true, false, pos, some, arith, length, replicate, zero, suc, sym,
  map, ◌≤◌,
}
use host_camera_server.Net.Kernel.{bytes, Kernel, RecvFits}
use host_camera_server.Net.Client.{StreamClient}
use host_camera_server.Net.Unix.{UnixClient, as_stream, send}
use host_camera_server.Talker.{Talker, polling, Revents, started, Poll, timeout, ready, polls, run}
use host_camera_server.Audio.Stream.{CtrlMessage, Act, serve}
use host_camera_server.Net.Tcp.{TcpClient}
use host_camera_server.Net.Tcp.Stream.{as_stream as over_tcp}
use host_camera_server.Net.Tcp.Transfer.{bytes_read}
use host_camera_server.Audio.OverTcp.{sink_client, Splits}
use host_camera_server.Audio.OverTcp.Splitting.{run-Splits_stream}

-- A server that takes two bytes at a time.
abbrev slow : Kernel
slow = record {
  socket = λ n. pos 5;
  connect = λ n address. pos 0;
  send = λ n buf. pos 2;
  recv = λ n size flags. bytes (replicate size 0);
  errno = λ n. 0;
}

abbrev net : StreamClient
net = as_stream slow

abbrev online : UnixClient
online = record {
  path = 47 ∷ [];
  socket = record { fd = pos 5; connected = true; calls = 2; log = [] };
}

abbrev thread : Talker UnixClient Act
thread = record (started online) { phase = polling }

abbrev readable : Revents
readable = record { pollin = true; pollerr = false; pollhup = false; pollnval = false }

abbrev packet : List ℕ
packet = 1 ∷ 2 ∷ 3 ∷ []

two_taken : (net.send packet online).1.size ≡ pos 2
unfolding send
two_taken = refl

-- A server that sends 20 bytes and more.
abbrev plenty : Kernel
plenty = record {
  socket = λ n. pos 5;
  connect = λ n address. pos 0;
  send = λ n buf. pos (length buf);
  recv = λ n size flags. bytes (replicate size 0);
  errno = λ n. 0;
}

length-replicate_lem : (n : ℕ) → length {A = ℕ} (replicate n 0) ≤ n
length-replicate_lem zero = omega arith
length-replicate_lem (suc n) = omega (arith, length-replicate_lem n)

same_bytes : (xs ys : List ℕ) → bytes xs ≡ bytes ys → xs ≡ ys
same_bytes xs ys e = cc

plenty-RecvFits : RecvFits plenty
plenty-RecvFits = record {
  fits = λ n size flags bs e.
      rw (sym (same_bytes (replicate size 0) bs e)) (length-replicate_lem size);
}

-- A callback that does not use the socket.
abbrev records : CtrlMessage → TcpClient → TcpClient
records m c = c

abbrev polled : List Poll
polled = timeout ∷ ready readable ∷ []

nothing_read : bytes_read (sink_client [] 0).socket.log ≡ []
unfolding sink_client bytes_read
nothing_read = refl

run-Splits_stream_example : Splits (
    run
      (over_tcp plenty)
      (λ t. t)
      (serve (over_tcp plenty) (some records))
      (map polls polled)
      (record (started (sink_client [] 0)) { phase = polling }))
run-Splits_stream_example =
    run-Splits_stream plenty records polled (sink_client [] 0) plenty-RecvFits (λ m c. refl)
      nothing_read
