-- ===== src/Net/Kernel.antt =====
-- The socket calls of the operating system, and the state that the three clients share.
use host_camera_server.Base.{
  ℕ, ◌+◌, ◌≤◌, ◌≡◌, List, [], ◌∷◌, Bool, false, ℤ, negsuc, Option, length,
}

-- What recv() gives: -1, or the bytes that it wrote; no bytes at the end of the stream.
pub data Received : Type 0 where
  failed : Received
  bytes : List ℕ → Received

-- A server address: a path, a context id with a port, or an IP address with a port.
pub data Address : Type 0 where
  unix : List ℕ → Address
  vsock : ℤ → ℕ → Address
  inet : List ℕ → ℕ → Address

-- The results of the n-th system call, by what kind it is, and `errno` after it.
pub record Kernel : Type 0 where
  pub socket : ℕ → ℤ
  pub connect : ℕ → Address → ℤ
  pub send : ℕ → List ℕ → ℤ
  pub recv : ℕ → ℕ → ℕ → Received
  pub errno : ℕ → ℕ

-- recv() writes no more than it is asked for.
pub record RecvFits (k : Kernel) : Type 0 where
  pub fits : (n size flags : ℕ) (bs : List ℕ) → k.recv n size flags ≡ bytes bs → length bs ≤ size

-- One call, with the descriptor that it is about.
pub data Syscall : Type 0 where
  opened : ℤ → Syscall
  dialled : ℤ → Address → Syscall
  wrote : ℤ → List ℕ → ℤ → Syscall
  read : ℤ → ℕ → Received → Syscall
  shut closed : ℤ → Syscall

-- `fd_` and `connected_` of an Impl, with the number of calls made and the calls, newest first.
pub record Socket : Type 0 where
  pub fd : ℤ
  pub connected : Bool
  pub calls : ℕ
  pub log : List Syscall

-- The std::tuple of an operation: how much was moved, the bytes that came, and the error text, as
-- the `errno` that it was made from; `none` is the empty text.
pub record IoResult : Type 0 where
  pub size : ℤ
  pub received : List ℕ
  pub error : Option ℕ

-- What an operation hands back: a value, or a std::system_error with its code.
pub data Outcome {ℓ} (A : Type ℓ) : Type ℓ where
  returned : A → Outcome A
  threw : ℕ → Outcome A

abbrev pub fresh : Socket
fresh = record { fd = negsuc 0; connected = false; calls = 0; log = [] }

-- A system call is made and written down.
abbrev pub calling : Syscall → Socket → Socket
calling call s = record s { calls = s.calls + 1; log = call ∷ s.log }
