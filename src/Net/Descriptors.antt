-- ===== src/Net/Descriptors.antt =====
-- Who owns a descriptor: the clients neither leak one nor close one twice.
use host_camera_server.Base.{
  ℕ, zero, suc, ◌+◌, ◌-◌, ◌++◌, ◌&&◌, length, ◌≡◌, inl, inr, List, [], ◌∷◌, Bool, true, false, ℤ,
  pos, negsuc, is_neg, none, some, arith, ◌==◌, if◌then◌else◌, Bool-cases, Option-cases,
}
use host_camera_server.Net.Kernel.{
  Address, Kernel, Syscall, opened, dialled, wrote, read, shut, closed, Socket, IoResult, fresh,
}
use host_camera_server.Net.Client.{hang_up, open_socket, connect_to, send_bytes, recv_once}
use host_camera_server.Net.Tcp.{some_bytes, recv_loop}

abbrev pub same_fd : ℤ → ℤ → Bool
same_fd (pos a) (pos b) = a == b
same_fd (negsuc a) (negsuc b) = a == b
same_fd _ _ = false

abbrev pub without : ℤ → List ℤ → List ℤ
without fd [] = []
without fd (x ∷ xs) = if same_fd fd x then xs else x ∷ without fd xs

-- The descriptors that the calls of a log, newest first, have left open.
unfoldable pub open_fds : List Syscall → List ℤ
open_fds [] = []
open_fds (opened fd ∷ log) = if is_neg fd then open_fds log else fd ∷ open_fds log
open_fds (closed fd ∷ log) = without fd (open_fds log)
open_fds (dialled fd address ∷ log) = open_fds log
open_fds (wrote fd buf result ∷ log) = open_fds log
open_fds (read fd size result ∷ log) = open_fds log
open_fds (shut fd ∷ log) = open_fds log

-- The one descriptor that is open is the client's; a connected client has one.
pub record Owns (s : Socket) : Type 0 where
  pub only_ours : open_fds s.log ≡ (if is_neg s.fd then [] else s.fd ∷ [])
  pub live : (s.connected && is_neg s.fd) ≡ false

same_fd_refl : (fd : ℤ) → same_fd fd fd ≡ true
same_fd_refl (pos n) = ground arith
same_fd_refl (negsuc n) = ground arith

hang_up-Owns : (s : Socket) → Owns s → Owns (hang_up s)
unfolding hang_up open_fds
hang_up-Owns s v = ground (arith, same_fd_refl s.fd)

hang_up-closes : (s : Socket) → Owns s → open_fds (hang_up s).log ≡ []
unfolding hang_up open_fds
hang_up-closes s v = ground (arith, same_fd_refl s.fd)

hang_up-negative : (s : Socket) → is_neg (hang_up s).fd ≡ true
unfolding hang_up
hang_up-negative s = ground arith

module _ (k : Kernel) where
  open_socket-Owns :
      (address : Address) (s : Socket)
      → is_neg s.fd ≡ true
      → Owns s
      → Owns (open_socket k address s).0
  unfolding open_socket open_fds
  open_socket-Owns address s e v = ground arith

  connect_to-Owns : (address : Address) (s : Socket) → Owns s → Owns (connect_to k address s).0
  unfolding connect_to
  connect_to-Owns address s v = elim (Bool-cases (is_neg s.fd)) [
    | inl e ↦ rw (e, connect_to) (open_socket-Owns address s e v)
    | inr e ↦
        rw (e, connect_to)
          (open_socket-Owns address (hang_up s) (hang_up-negative s) (hang_up-Owns s v))
  ]

  send_bytes-Owns : (buf : List ℕ) (s : Socket) → Owns s → Owns (send_bytes k buf s).0
  unfolding send_bytes open_fds
  send_bytes-Owns buf s v = ground arith

  recv_once-Owns : (size flags : ℕ) (s : Socket) → Owns s → Owns (recv_once k size flags s).0
  unfolding recv_once open_fds
  recv_once-Owns size flags s v = ground arith

  recv_loop-Owns :
      (fuel size left : ℕ) (got : List ℕ) (s s' : Socket) (result : IoResult)
      → recv_loop k fuel size left got s ≡ some (s', result)
      → Owns s
      → Owns s'
  unfolding recv_loop
  recv_loop-Owns zero size left got s s' result h v = cc
  recv_loop-Owns (suc fuel) size left got s s' result h v = elim (Bool-cases (left == 0)) [
    | inl e ↦ ground arith
    | inr e ↦ elim (Option-cases (some_bytes (k.recv s.calls left 0))) [
      | inl q ↦ unfold open_fds in ground arith
      | inr (bs, q) ↦
          recv_loop-Owns fuel size (left - length bs) (got ++ bs) _ s' result
            (rw (e, q, recv_loop) at h) (unfold open_fds in ground arith)
    ]
  ]

-- What a program can do with a client of one of the three kinds.
pub data Op : Type 0 where
  connects : Address → Op
  sends : List ℕ → Op
  recvs : ℕ → ℕ → Op
  collects : ℕ → Op
  closes : Op

-- `recvs` is one recv(), `collects` is the loop of the TCP client.
unfoldable pub step : Kernel → Op → Socket → Socket
unfolding connect_to send_bytes recv_once hang_up recv_loop
step k (connects address) s = (connect_to k address s).0
step k (sends buf) s = (send_bytes k buf s).0
step k (recvs size flags) s = (recv_once k size flags s).0
step k (collects size) s = elim (recv_loop k (size + 1) size size [] s) [
  | none ↦ s
  | some (s', result) ↦ s'
]
step k closes s = hang_up s

unfoldable pub run : Kernel → List Op → Socket → Socket
run k [] s = s
run k (op ∷ ops) s = run k ops (step k op s)

step-Owns : (k : Kernel) (op : Op) (s : Socket) → Owns s → Owns (step k op s)
unfolding step
step-Owns k (connects address) s v = connect_to-Owns k address s v
step-Owns k (sends buf) s v = send_bytes-Owns k buf s v
step-Owns k (recvs size flags) s v = recv_once-Owns k size flags s v
step-Owns k closes s v = hang_up-Owns s v
step-Owns k (collects size) s v = elim (Option-cases (recv_loop k (size + 1) size size [] s)) [
  | inl e ↦ rw (e, step) v
  | inr ((s', result), e) ↦ rw (e, step) (recv_loop-Owns k (size + 1) size size [] s s' result e v)
]

run-Owns : (k : Kernel) (ops : List Op) (s : Socket) → Owns s → Owns (run k ops s)
unfolding run
run-Owns k [] s v = v
run-Owns k (op ∷ ops) s v = run-Owns k ops (step k op s) (step-Owns k op s v)

fresh-Owns : Owns fresh
unfolding open_fds
fresh-Owns = ground arith

-- After any sequence of Connect, Send, Recv and Close on a new client, and whatever the system calls
-- return, the only descriptor that is open is the client's own, a client that says it is connected
-- has one, and once the destructor has run none is open.
pub run-fresh-Owns :
    (k : Kernel) (ops : List Op)
    → Owns (run k ops fresh) × (open_fds (hang_up (run k ops fresh)).log ≡ [])
run-fresh-Owns k ops =
    let v = run-Owns k ops fresh fresh-Owns in (v, hang_up-closes (run k ops fresh) v)

-- Close() on a client that is closed makes no system call and changes nothing.
pub hang_up_twice : (s : Socket) → hang_up (hang_up s) ≡ hang_up s
unfolding hang_up
hang_up_twice s = ground arith
