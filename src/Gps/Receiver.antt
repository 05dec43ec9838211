-- ===== src/Gps/Receiver.antt =====
-- The connection of a VirtualGpsReceiver, and its Write and Read.
use host_camera_server.Base.{
  ℕ, zero, suc, ◌+◌, ◌-◌, List, [], ◌∷◌, ◌++◌, Bool, true, false, ℤ, pos, negsuc, is_neg, Option,
  none, some, length, drop, u16, u32, ltb, ◌==◌, if◌then◌else◌,
}
use host_camera_server.Net.Kernel.{
  Received, failed, bytes, Address, inet, Syscall, opened, dialled, wrote, read, shut, closed,
  IoResult,
}

-- The results of the n-th system call, and whether it left EINTR in `errno`.
pub record GpsKernel : Type 0 where
  pub socket : ℕ → ℤ
  pub connect : ℕ → Address → ℤ
  pub write : ℕ → List ℕ → ℤ
  pub read : ℕ → ℕ → Received
  pub errno : ℕ → ℕ
  pub interrupted : ℕ → Bool

-- The fields of VirtualGpsReceiver, the calls that it made, newest first, and the commands that its
-- handler was given, newest first; `has_handler` if `mGpsCmdHandler` is set.
pub record Receiver : Type 0 where
  pub ip : List ℕ
  pub tci_port : ℕ
  pub port : ℕ
  pub sock : ℤ
  pub stop : Bool
  pub has_handler : Bool
  pub calls : ℕ
  pub log : List Syscall
  pub commands : List ℕ

unfoldable pub create : List ℕ → ℕ → Receiver
create ip port = record {
  ip = ip;
  tci_port = port;
  port = 8766;
  sock = negsuc 0;
  stop = false;
  has_handler = false;
  calls = 0;
  log = [];
  commands = [];
}

abbrev pub calling : Syscall → Receiver → Receiver
calling call g = record g { calls = g.calls + 1; log = call ∷ g.log }

-- RegisterCallback with a handler.
unfoldable pub register_callback : Receiver → Receiver × Bool
register_callback g = (record g { has_handler = true }, true)

unfoldable pub disconnect : Receiver → Receiver × Bool
disconnect g =
    if is_neg g.sock
    then (g, true)
    else (record (calling (closed g.sock) (calling (shut g.sock) g)) { sock = negsuc 0 }, true)

-- `mSockGps > 0`.
unfoldable pub is_connected : Receiver → Bool
is_connected g = elim g.sock [ pos n ↦ ltb 0 n | negsuc n ↦ false ]

module _ (k : GpsKernel) where
  -- connect() on the new descriptor, which is closed again if it fails.
  unfoldable pub dial : Receiver → Receiver × Bool
  dial g =
      let address = inet g.ip g.port in
      let g1 = calling (dialled g.sock address) g in
      if is_neg (k.connect g.calls address)
      then (record (calling (closed g.sock) g1) { sock = negsuc 0 }, false)
      else (g1, true)

  unfoldable pub open_socket : Receiver → Receiver × Bool
  unfolding dial
  open_socket g =
      let g1 = record g { port = if g.tci_port == 0 then g.port else u16 g.tci_port } in
      let g2 = record (calling (opened (k.socket g1.calls)) g1) { sock = k.socket g1.calls } in
      if is_neg g2.sock then (g2, false) else dial g2

  unfoldable pub connect : Receiver → Receiver × Bool
  connect g = open_socket (if is_neg g.sock then g else (disconnect g).0)

-- The sign of what write() or read() returns.
pub data Sign : Type 0 where
  negative nothing something : Sign

abbrev pub sign_of : ℤ → Sign
sign_of (pos n) = if n == 0 then nothing else something
sign_of (negsuc n) = negative

abbrev pub read_sign : Received → Sign
read_sign failed = negative
read_sign (bytes []) = nothing
read_sign (bytes (b ∷ bs)) = something

-- `--attempt` of an unsigned int.
abbrev pub decrement : ℕ → ℕ
decrement attempt = u32 (attempt + 4294967295)

-- What follows a call: another one, with the attempts left, a return because the server is closed or
-- because of an error, or the next round with the bytes moved.
pub data Turn : Type 0 where
  retries : ℕ → Turn
  ends errs moves : Turn

unfoldable pub turn : Sign → Bool → ℕ → Turn
turn negative false attempt = errs
turn negative true attempt = if ltb 0 (decrement attempt) then retries (decrement attempt) else errs
turn nothing interrupted attempt = ends
turn something interrupted attempt = moves

-- The number of bytes of a positive result.
abbrev pub amount : ℤ → ℕ
amount (pos n) = n
amount (negsuc n) = 0

abbrev pub bytes_of : Received → List ℕ
bytes_of failed = []
bytes_of (bytes bs) = bs

abbrev pub reply : ℤ → List ℕ → Option ℕ → IoResult
reply size got error = record { size = size; received = got; error = error }

module _ (k : GpsKernel) where
  -- Both loops of Write(), with fuel; `rest` is what is left of the buffer.
  unfoldable pub write_loop : ℕ → ℕ → ℕ → List ℕ → Receiver → Option (Receiver × IoResult)
  write_loop zero attempt offset rest g = none
  write_loop (suc fuel) attempt offset rest g =
      let size = k.write g.calls rest in
      let error = some (k.errno g.calls) in
      let g1 = calling (wrote g.sock rest size) g in
      elim (length rest == 0) [
        | true ↦ some (g, reply (pos offset) [] none)
        | false ↦ elim (turn (sign_of size) (k.interrupted g.calls) attempt) [
          | retries attempt' ↦ write_loop fuel attempt' offset rest g1
          | ends ↦ some ((disconnect g1).0, reply size [] error)
          | errs ↦ some (g1, reply size [] error)
          | moves ↦ write_loop fuel attempt (offset + amount size) (drop (amount size) rest) g1
        ]
      ]

  -- Write(), with fuel for every byte and every attempt.
  unfoldable pub write : List ℕ → Receiver → Option (Receiver × IoResult)
  write buf g = write_loop (length buf + 101) 100 0 buf g

  -- Both loops of Read(), with fuel; `got` is what the buffer holds.
  unfoldable pub read_loop : ℕ → ℕ → ℕ → List ℕ → Receiver → Option (Receiver × IoResult)
  read_loop zero attempt left got g = none
  read_loop (suc fuel) attempt left got g =
      let result = k.read g.calls left in
      let error = some (k.errno g.calls) in
      let g1 = calling (read g.sock left result) g in
      elim (left == 0) [
        | true ↦ some (g, reply (pos (length got)) got none)
        | false ↦ elim (turn (read_sign result) (k.interrupted g.calls) attempt) [
          | retries attempt' ↦ read_loop fuel attempt' left got g1
          | ends ↦ some ((disconnect g1).0, reply (pos 0) got error)
          | errs ↦ some (g1, reply (negsuc 0) got error)
          | moves ↦
              read_loop fuel attempt (left - length (bytes_of result)) (got ++ bytes_of result) g1
        ]
      ]

  unfoldable pub read_bytes : ℕ → Receiver → Option (Receiver × IoResult)
  read_bytes len g = read_loop (len + 101) 100 len [] g
