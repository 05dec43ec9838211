-- ===== src/Net/Tcp.antt =====
-- TcpStreamSocketClient: source/tcp_stream_socket_client_impl.h and
-- source/tcp_stream_socket_client.cc.
pub mod Transfer
pub mod Stream
use host_camera_server.Base.{
  ℕ, zero, suc, ◌+◌, ◌-◌, ◌≡◌, List, [], ◌∷◌, ◌++◌, Bool, true, false, ℤ, pos, Option, none, some,
  arith, length, ◌==◌, if◌then◌else◌,
}
use host_camera_server.Net.Kernel.{
  Received, failed, bytes, Kernel, Socket, IoResult, Outcome, returned, inet, read, fresh, calling,
}
use host_camera_server.Net.Client.{hang_up, open_socket, connect_to, send_bytes, StreamClient}

-- An Impl: the address and port of the server, and the descriptor.
pub record TcpClient : Type 0 where
  pub ip : List ℕ
  pub port : ℕ
  pub socket : Socket

unfoldable pub create : List ℕ → ℕ → TcpClient
create ip port = record { ip = ip; port = port; socket = fresh }

unfoldable pub close : TcpClient → TcpClient
unfolding hang_up
close c = record c { socket = hang_up c.socket }

unfoldable pub destroy : TcpClient → TcpClient
unfolding close
destroy c = close c

-- What Recv() returns: `size - left` and the error text, with the bytes in the buffer.
abbrev pub tally : ℕ → ℕ → List ℕ → Option ℕ → IoResult
tally size left got error = record { size = pos (size - left); received = got; error = error }

-- The bytes of a recv() with a positive result.
unfoldable pub some_bytes : Received → Option (List ℕ)
some_bytes failed = none
some_bytes (bytes []) = none
some_bytes (bytes (b ∷ bs)) = some (b ∷ bs)

module _ (k : Kernel) where
  unfoldable pub connect : TcpClient → TcpClient × Outcome (Bool × Option ℕ)
  unfolding connect_to hang_up open_socket
  connect c =
      let (s, outcome) = connect_to k (inet c.ip c.port) c.socket in
      (record c { socket = s }, outcome)

  unfoldable pub send : List ℕ → TcpClient → TcpClient × IoResult
  unfolding send_bytes
  send buf c = let (s, result) = send_bytes k buf c.socket in (record c { socket = s }, result)

  -- `while (left > 0)` of Recv(), with fuel: `none` if it runs out. A recv() of no bytes and a
  -- failed one both break off, with the error text of `errno`.
  unfoldable pub recv_loop : ℕ → ℕ → ℕ → List ℕ → Socket → Option (Socket × IoResult)
  recv_loop zero size left got s = none
  recv_loop (suc fuel) size left got s =
      let result = k.recv s.calls left 0 in
      let s1 = calling (read s.fd left result) s in
      elim (left == 0) [
        | true ↦ some (s, tally size left got none)
        | false ↦ elim (some_bytes result) [
          | none ↦ some (s1, tally size left got (some (k.errno s.calls)))
          | some bs ↦ recv_loop fuel size (left - length bs) (got ++ bs) s1
        ]
      ]

  -- Recv(), whose flag is dropped.
  unfoldable pub recv : ℕ → ℕ → TcpClient → Option (TcpClient × IoResult)
  unfolding recv_loop
  recv size flag c = elim (recv_loop (size + 1) size size [] c.socket) [
    | none ↦ none
    | some (s, result) ↦ some (record c { socket = s }, result)
  ]
