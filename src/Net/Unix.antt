-- ===== src/Net/Unix.antt =====
-- UnixStreamSocketClient: source/unix_stream_socket_client_impl.h and
-- source/unix_stream_socket_client.cc.
use host_camera_server.Base.{ℕ, ◌≡◌, List, Bool, false, Option, arith}
use host_camera_server.Net.Kernel.{Kernel, Socket, IoResult, Outcome, returned, unix, fresh}
use host_camera_server.Net.Client.{
  hang_up, open_socket, connect_to, send_bytes, recv_once, StreamClient,
}

-- An Impl: the path of the server's socket, and the descriptor.
pub record UnixClient : Type 0 where
  pub path : List ℕ
  pub socket : Socket

unfoldable pub create : List ℕ → UnixClient
create path = record { path = path; socket = fresh }

unfoldable pub close : UnixClient → UnixClient
unfolding hang_up
close c = record c { socket = hang_up c.socket }

-- The destructor closes.
unfoldable pub destroy : UnixClient → UnixClient
unfolding close
destroy c = close c

module _ (k : Kernel) where
  unfoldable pub connect : UnixClient → UnixClient × Outcome (Bool × Option ℕ)
  unfolding connect_to hang_up open_socket
  connect c =
      let (s, outcome) = connect_to k (unix c.path) c.socket in (record c { socket = s }, outcome)

  unfoldable pub send : List ℕ → UnixClient → UnixClient × IoResult
  unfolding send_bytes
  send buf c = let (s, result) = send_bytes k buf c.socket in (record c { socket = s }, result)

  -- The flag that IStreamSocketClient::Recv takes is dropped.
  unfoldable pub recv : ℕ → ℕ → UnixClient → UnixClient × IoResult
  unfolding recv_once
  recv size flag c =
      let (s, result) = recv_once k size 0 c.socket in (record c { socket = s }, result)

  pub close_disconnects : (c : UnixClient) → (close c).socket.connected ≡ false
  unfolding close
  close_disconnects c = ground arith

  pub connect_reports :
      (c : UnixClient) (ok : Bool) (error : Option ℕ)
      → (connect c).1 ≡ returned (ok, error)
      → (connect c).0.socket.connected ≡ ok
  unfolding connect
  connect_reports c ok error h = ground arith

  -- The client behind the interface.
  abbrev pub as_stream : StreamClient
  as_stream = record {
    State = UnixClient;
    connect = connect;
    is_connected = λ c. c.socket.connected;
    native_fd = λ c. c.socket.fd;
    send = send;
    recv = recv;
    close = close;
    close_disconnects = close_disconnects;
    connect_reports = connect_reports;
  }
