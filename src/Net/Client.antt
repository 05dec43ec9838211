-- ===== src/Net/Client.antt =====
-- What the Impl classes of source/unix_stream_socket_client_impl.h,
-- source/vsock_stream_socket_client_impl.h and source/tcp_stream_socket_client_impl.h do alike, and
-- the interface IStreamSocketClient as its clients use it.
use host_camera_server.Base.{
  ℕ, ◌≡◌, List, [], Bool, false, ℤ, pos, negsuc, is_neg, is_zero, Option, none, some, is_minus_one,
  if◌then◌else◌, length,
}
use host_camera_server.Net.Kernel.{
  failed, bytes, Address, Kernel, opened, dialled, wrote, read, shut, closed, Socket, IoResult,
  Outcome, returned, threw, calling,
}

-- Close().
unfoldable pub hang_up : Socket → Socket
hang_up s =
    if is_neg s.fd
    then record s { connected = false }
    else record (calling (closed s.fd) (calling (shut s.fd) s)) { connected = false; fd = negsuc 0 }

module _ (k : Kernel) where
  -- connect() on the new descriptor, and the tuple that Connect() returns.
  unfoldable pub dial : Address → Socket → Socket × Outcome (Bool × Option ℕ)
  dial address s =
      let ok = is_zero (k.connect s.calls address) in
      (
        record (calling (dialled s.fd address) s) { connected = ok },
        returned (ok, if ok then none else some (k.errno s.calls)),
      )

  -- `fd_ = socket(...)`, once no descriptor is open.
  unfoldable pub open_socket : Address → Socket → Socket × Outcome (Bool × Option ℕ)
  unfolding dial
  open_socket address s =
      let s1 = record (calling (opened (k.socket s.calls)) s) { fd = k.socket s.calls } in
      if is_neg s1.fd then (s1, threw (k.errno s.calls)) else dial address s1

  -- Connect().
  unfoldable pub connect_to : Address → Socket → Socket × Outcome (Bool × Option ℕ)
  connect_to address s = open_socket address (if is_neg s.fd then s else hang_up s)

  -- Send().
  unfoldable pub send_bytes : List ℕ → Socket → Socket × IoResult
  send_bytes buf s =
      let sent = k.send s.calls buf in
      (
        calling (wrote s.fd buf sent) s,
        record {
          size = sent;
          received = [];
          error = if is_minus_one sent then some (k.errno s.calls) else none;
        },
      )

  -- One recv(), as the UNIX and VSOCK clients make it.
  unfoldable pub recv_once : ℕ → ℕ → Socket → Socket × IoResult
  recv_once size flags s =
      let result = k.recv s.calls size flags in
      (
        calling (read s.fd size result) s,
        elim result [
          | failed ↦ record { size = negsuc 0; received = []; error = some (k.errno s.calls) }
          | bytes bs ↦ record { size = pos (length bs); received = bs; error = none }
        ],
      )

-- IStreamSocketClient: the operations over a state, and what its clients rely on.
pub record StreamClient : Type 1 where
  pub State : Type 0
  pub connect : State → State × Outcome (Bool × Option ℕ)
  pub is_connected : State → Bool
  pub native_fd : State → ℤ
  pub send : List ℕ → State → State × IoResult
  pub recv : ℕ → ℕ → State → State × IoResult
  pub close : State → State
  pub close_disconnects : (s : State) → is_connected (close s) ≡ false
  pub connect_reports :
      (s : State) (ok : Bool) (error : Option ℕ)
      → (connect s).1 ≡ returned (ok, error)
      → is_connected (connect s).0 ≡ ok
