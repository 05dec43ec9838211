-- ===== src/Net/Tcp/Stream.antt =====
-- TcpStreamSocketClient of source/tcp_stream_socket_client.cc behind IStreamSocketClient.
use host_camera_server.Base.{
  ℕ, zero, suc, ◌+◌, ◌-◌, ◌<◌, ◌≡◌, refl, inl, inr, List, [], ◌∷◌, ◌++◌, Bool, false, Option, none,
  some, arith, length, Bool-cases, Option-cases, ◌==◌,
}
use host_camera_server.Net.Kernel.{
  Received, failed, bytes, Kernel, RecvFits, Socket, IoResult, returned,
}
use host_camera_server.Net.Client.{StreamClient}
use host_camera_server.Net.Tcp.{TcpClient, close, connect, send, tally, some_bytes, recv_loop, recv}
use host_camera_server.Net.Tcp.Transfer.{Transfers, bytes_read, recv-Transfers}

some_bytes-length : (r : Received) (bs : List ℕ) → some_bytes r ≡ some bs → 0 < length bs
unfolding some_bytes
some_bytes-length failed bs h = cc
some_bytes-length (bytes []) bs h = cc
some_bytes-length (bytes (x ∷ xs)) bs h = ground arith

module _ (k : Kernel) where
  -- Recv() without the fuel; it never runs out.
  unfoldable pub recv_all : ℕ → ℕ → TcpClient → TcpClient × IoResult
  unfolding recv
  recv_all size flag c = elim (recv k size flag c) [
    | none ↦ (c, tally size size [] none)
    | some x ↦ x
  ]

  abbrev IsDone : Option (Socket × IoResult) → Type 0
  IsDone o = (x : Socket × IoResult) × (o ≡ some x)

  recv_loop-IsDone :
      (fuel size left : ℕ) (got : List ℕ) (s : Socket)
      → left < fuel
      → IsDone (recv_loop k fuel size left got s)
  unfolding recv_loop
  recv_loop-IsDone zero size left got s h = elim h [ ]
  recv_loop-IsDone (suc fuel) size left got s h = elim (Bool-cases (left == 0)) [
    | inl e ↦ rw (e, recv_loop) (_, refl)
    | inr e ↦ elim (Option-cases (some_bytes (k.recv s.calls left 0))) [
      | inl q ↦ rw (e, q, recv_loop) (_, refl)
      | inr (bs, q) ↦
          let some_taken = some_bytes-length _ bs q in
          rw (e, q, recv_loop)
            (recv_loop-IsDone fuel size (left - length bs) (got ++ bs) _ (ground arith))
    ]
  ]

  -- Recv() returns for every size, whatever the calls return.
  pub recv-recv_all :
      (size flag : ℕ) (c : TcpClient) → recv k size flag c ≡ some (recv_all size flag c)
  unfolding recv recv_all
  recv-recv_all size flag c =
      let (x, e) = recv_loop-IsDone (size + 1) size size [] c.socket (omega arith) in
      rw (recv, recv_all, e)

  pub recv_all-Transfers :
      (size flag : ℕ) (c : TcpClient)
      → RecvFits k
      → Transfers size
          (bytes_read c.socket.log)
          (recv_all size flag c).0.socket
          (recv_all size flag c).1
  recv_all-Transfers size flag c conforms =
      let (c', result, e, t) = recv-Transfers k size flag c conforms in
      let same : some (recv_all size flag c) ≡ some (c', result) =
        rw (← recv-recv_all size flag c) e in
      let (p, q) : (c' ≡ (recv_all size flag c).0) × (result ≡ (recv_all size flag c).1) =
        ground arith in
      rw (← p, ← q) t

  pub close_disconnects : (c : TcpClient) → (close c).socket.connected ≡ false
  unfolding close
  close_disconnects c = ground arith

  pub connect_reports :
      (c : TcpClient) (ok : Bool) (error : Option ℕ)
      → (connect k c).1 ≡ returned (ok, error)
      → (connect k c).0.socket.connected ≡ ok
  unfolding connect
  connect_reports c ok error h = ground arith

  -- The client behind the interface.
  abbrev pub as_stream : StreamClient
  as_stream = record {
    State = TcpClient;
    connect = connect k;
    is_connected = λ c. c.socket.connected;
    native_fd = λ c. c.socket.fd;
    send = send k;
    recv = recv_all;
    close = close;
    close_disconnects = close_disconnects;
    connect_reports = connect_reports;
  }
