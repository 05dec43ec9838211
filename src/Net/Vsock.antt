-- ===== src/Net/Vsock.antt =====
-- VsockStreamSocketClient: source/vsock_stream_socket_client_impl.h and
-- source/vsock_stream_socket_client.cc.
use host_camera_server.Base.{ℕ, ◌≡◌, List, Bool, false, ℤ, Option, arith, u8}
use host_camera_server.Net.Kernel.{Kernel, Socket, IoResult, Outcome, returned, vsock, fresh}
use host_camera_server.Net.Client.{
  hang_up, open_socket, connect_to, send_bytes, recv_once, StreamClient,
}

-- DEFAULT_PORT_CAMERA.
abbrev pub default_port_camera : ℕ
default_port_camera = 1982

-- An Impl: the context id of the server's machine, and the descriptor.
pub record VsockClient : Type 0 where
  pub cid : ℤ
  pub socket : Socket

unfoldable pub create : ℤ → VsockClient
create cid = record { cid = cid; socket = fresh }

unfoldable pub close : VsockClient → VsockClient
unfolding hang_up
close c = record c { socket = hang_up c.socket }

-- The destructor closes.
unfoldable pub destroy : VsockClient → VsockClient
unfolding close
destroy c = close c

module _ (k : Kernel) where
  unfoldable pub connect : VsockClient → VsockClient × Outcome (Bool × Option ℕ)
  unfolding connect_to hang_up open_socket
  connect c =
      let (s, outcome) = connect_to k (vsock c.cid default_port_camera) c.socket in
      (record c { socket = s }, outcome)

  unfoldable pub send : List ℕ → VsockClient → VsockClient × IoResult
  unfolding send_bytes
  send buf c = let (s, result) = send_bytes k buf c.socket in (record c { socket = s }, result)

  -- The flag is a uint8_t.
  unfoldable pub recv : ℕ → ℕ → VsockClient → VsockClient × IoResult
  unfolding recv_once
  recv size flag c =
      let (s, result) = recv_once k size (u8 flag) c.socket in (record c { socket = s }, result)

  pub close_disconnects : (c : VsockClient) → (close c).socket.connected ≡ false
  unfolding close
  close_disconnects c = ground arith

  pub connect_reports :
      (c : VsockClient) (ok : Bool) (error : Option ℕ)
      → (connect c).1 ≡ returned (ok, error)
      → (connect c).0.socket.connected ≡ ok
  unfolding connect
  connect_reports c ok error h = ground arith

  -- The client behind the interface.
  abbrev pub as_stream : StreamClient
  as_stream = record {
    State = VsockClient;
    connect = connect;
    is_connected = λ c. c.socket.connected;
    native_fd = λ c. c.socket.fd;
    send = send;
    recv = recv;
    close = close;
    close_disconnects = close_disconnects;
    connect_reports = connect_reports;
  }
