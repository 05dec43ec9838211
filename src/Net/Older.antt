-- ===== src/Net/Older.antt =====
-- UnixSocket of tmp/unix_socket_impl.h and tmp/unix_socket.cc, an older client that the library does
-- not use.
use host_camera_server.Base.{
  ℕ, suc, ◌+◌, ◌≡◌, List, [], ◌∷◌, Bool, true, not, ℤ, is_neg, is_minus_one, length, ltb,
  if◌then◌else◌, arith,
}
use host_camera_server.Net.Kernel.{
  failed, bytes, Kernel, Received, unix, opened, dialled, wrote, read, closed, Syscall, Socket,
  fresh, calling,
}

-- What an operation does: it returns, throws std::system_error, or writes past `sun_path`.
pub data Ended (A : Type 0) : Type 0 where
  returned : A → Ended A
  threw : ℕ → Ended A
  overran : Ended A

-- sizeof sockaddr_un::sun_path.
abbrev pub sun_path_size : ℕ
sun_path_size = 108

-- Close(), which leaves `fd_` as it is.
unfoldable pub close : Socket → Socket
close s = calling (closed s.fd) s

-- The destructor.
unfoldable pub destroy : Socket → Socket
unfolding close
destroy s = close s

unfoldable pub valid : Socket → Bool
valid s = not (is_neg s.fd)

module _ (k : Kernel) where
  -- The constructor.
  unfoldable pub create : Socket → Socket × Ended (Unit {0})
  create s =
      let fd = k.socket s.calls in
      (
        record (calling (opened fd) s) { fd = fd },
        if is_neg fd then threw (k.errno s.calls) else returned tt,
      )

  unfoldable pub connect : List ℕ → Socket → Socket × Ended Bool
  connect path s =
      if ltb (length path) sun_path_size
      then (
        calling (dialled s.fd (unix path)) s,
        if is_minus_one (k.connect s.calls (unix path))
            then threw (k.errno s.calls)
            else returned true,
      )
      else (s, overran)

  unfoldable pub send : List ℕ → Socket → Socket × Ended ℤ
  send buf s =
      let sent = k.send s.calls buf in
      (
        calling (wrote s.fd buf sent) s,
        if is_minus_one sent then threw (k.errno s.calls) else returned sent,
      )

  unfoldable pub received : ℕ → Received → Ended (List ℕ)
  received n failed = threw (k.errno n)
  received n (bytes bs) = returned bs

  unfoldable pub recv : ℕ → Socket → Socket × Ended (List ℕ)
  unfolding received
  recv size s =
      let result = k.recv s.calls size 0 in
      (calling (read s.fd size result) s, received s.calls result)

  -- What a program does with a socket.
  pub data Op : Type 0 where
    connects sends : List ℕ → Op
    recvs : ℕ → Op
    closes : Op

  unfoldable pub perform : Op → Socket → Socket
  unfolding connect send recv close
  perform (connects path) s = (connect path s).0
  perform (sends buf) s = (send buf s).0
  perform (recvs size) s = (recv size s).0
  perform closes s = close s

  unfoldable pub perform_all : List Op → Socket → Socket
  unfolding perform
  perform_all [] s = s
  perform_all (op ∷ ops) s = perform_all ops (perform op s)

  -- How often a program closes.
  abbrev pub closings : List Op → ℕ
  closings [] = 0
  closings (closes ∷ ops) = suc (closings ops)
  closings (connects path ∷ ops) = closings ops
  closings (sends buf ∷ ops) = closings ops
  closings (recvs size ∷ ops) = closings ops

-- How often close() was called.
abbrev pub closed_times : List Syscall → ℕ
closed_times [] = 0
closed_times (closed fd ∷ log) = suc (closed_times log)
closed_times (opened fd ∷ log) = closed_times log
closed_times (dialled fd address ∷ log) = closed_times log
closed_times (wrote fd buf result ∷ log) = closed_times log
closed_times (read fd size result ∷ log) = closed_times log
closed_times (_ ∷ log) = closed_times log

module _ (k : Kernel) where
  perform-closes :
      (op : Op k) (s : Socket)
      → closed_times (perform k op s).log ≡ closed_times s.log + closings k (op ∷ [])
  unfolding perform
  perform-closes op s = ground arith

  performs-closes :
      (ops : List (Op k)) (s : Socket)
      → closed_times (perform_all k ops s).log ≡ closed_times s.log + closings k ops
  unfolding perform_all
  performs-closes [] s = omega arith
  performs-closes (op ∷ ops) s =
      ground (arith, perform-closes op s, performs-closes ops (perform k op s))

  -- The destructor closes once more, whatever the program has closed: a program that closes its socket
  -- closes the descriptor twice.
  pub destroy-closes :
      (ops : List (Op k))
      → closed_times (destroy (perform_all k ops (create k fresh).0)).log ≡ closings k ops + 1
  unfolding destroy create
  destroy-closes ops = omega (arith, performs-closes ops (create k fresh).0)
