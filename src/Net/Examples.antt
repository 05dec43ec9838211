-- ===== src/Net/Examples.antt =====
-- The socket clients' theorems at concrete inputs.
use host_camera_server.Base.{
  ℕ, zero, suc, ◌≤◌, ◌≡◌, ◌≢◌, refl, List, [], ◌∷◌, pos, some, arith, length, digits,
}
use host_camera_server.Net.Kernel.{Received, bytes, Kernel, RecvFits, unix, IoResult, fresh}
use host_camera_server.Net.Client.{hang_up}
use host_camera_server.Net.Tcp.{TcpClient, create, recv}
use host_camera_server.Net.Tcp.Transfer.{Transfers, bytes_read, recv-Transfers}
use host_camera_server.Net.Paths.{socket_path, socket_path-distinct}
use host_camera_server.Net.Descriptors.{
  open_fds, Owns, Op, connects, sends, collects, closes, run, run-fresh-Owns,
}

-- A peer that answers with one byte at a time.
abbrev drip : ℕ → ℕ → ℕ → Received
drip n zero flags = bytes []
drip n (suc m) flags = bytes (7 ∷ [])

abbrev dripping : Kernel
dripping = record {
  socket = λ n. pos 5;
  connect = λ n address. pos 0;
  send = λ n buf. pos (length buf);
  recv = drip;
  errno = λ n. 0;
}

drip-fits : (n size flags : ℕ) (bs : List ℕ) → drip n size flags ≡ bytes bs → length bs ≤ size
drip-fits n zero flags bs e = ground arith
drip-fits n (suc m) flags bs e = ground arith

dripping-RecvFits : RecvFits dripping
dripping-RecvFits = record { fits = drip-fits }

abbrev client : TcpClient
client = create (49 ∷ []) 8080

recv-Transfers_example :
    (c' : TcpClient) × (result : IoResult) × (recv dripping 3 0 client ≡ some (c', result))
    × Transfers 3 (bytes_read client.socket.log) c'.socket result
recv-Transfers_example = recv-Transfers dripping 3 0 client dripping-RecvFits

abbrev session : List Op
session =
    connects (unix (47 ∷ [])) ∷ sends (1 ∷ 2 ∷ []) ∷ collects 3 ∷ closes ∷ connects (unix []) ∷ []

run-fresh-Owns_example :
    Owns (run dripping session fresh) × (open_fds (hang_up (run dripping session fresh)).log ≡ [])
run-fresh-Owns_example = run-fresh-Owns dripping session

abbrev first_path : List ℕ
first_path = 47 ∷ 99 ∷ 49 ∷ []

abbrev other_path : List ℕ
other_path = 47 ∷ 99 ∷ 49 ∷ 50 ∷ []

path_1 : socket_path (99 ∷ []) (47 ∷ []) (pos 1) ≡ some first_path
unfolding socket_path digits
path_1 = refl

path_12 : socket_path (99 ∷ []) (47 ∷ []) (pos 12) ≡ some other_path
unfolding socket_path digits
path_12 = refl

-- The sockets of instances 1 and 12 in one directory.
socket_path-distinct_example : first_path ≢ other_path
socket_path-distinct_example =
    socket_path-distinct (99 ∷ []) (47 ∷ []) first_path other_path 1 12 (omega arith, omega arith)
      (λ e. omega (arith, e)) path_1 path_12
