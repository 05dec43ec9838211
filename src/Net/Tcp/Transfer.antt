-- ===== src/Net/Tcp/Transfer.antt =====
-- Recv() of the TCP client collects a whole packet from pieces.
use host_camera_server.Base.{
  ℕ, zero, suc, ◌+◌, ◌-◌, ◌≤◌, ◌<◌, ◌≡◌, ◌≢◌, refl, sym, ◌⊎◌, inl, inr, List, [], ◌∷◌, ◌++◌, ℤ, pos,
  Option, none, some, arith, length, length-append, append-nil, append_assoc, ◌==◌, Bool-cases,
  Option-cases,
}
use host_camera_server.Net.Kernel.{
  Received, failed, bytes, Kernel, RecvFits, Socket, Syscall, IoResult, opened, dialled, wrote,
  read, shut, closed,
}
use host_camera_server.Net.Tcp.{TcpClient, some_bytes, recv_loop, recv}

abbrev pub bytes_of : Received → List ℕ
bytes_of failed = []
bytes_of (bytes bs) = bs

-- The bytes that the calls in a log read, oldest first.
unfoldable pub bytes_read : List Syscall → List ℕ
bytes_read [] = []
bytes_read (read fd size result ∷ log) = bytes_read log ++ bytes_of result
bytes_read (opened fd ∷ log) = bytes_read log
bytes_read (dialled fd address ∷ log) = bytes_read log
bytes_read (wrote fd bs result ∷ log) = bytes_read log
bytes_read (shut fd ∷ log) = bytes_read log
bytes_read (closed fd ∷ log) = bytes_read log

bytes_read-read :
    (fd : ℤ) (size : ℕ) (result : Received) (log : List Syscall)
    → bytes_read (read fd size result ∷ log) ≡ bytes_read log ++ bytes_of result
unfolding bytes_read
bytes_read-read fd size result log = refl

-- What a Recv() of `size` bytes that started with the log `before` has done: the bytes that it hands
-- over are those that its calls read, in order, the size says how many, there are no more than asked
-- for, and all of them unless an error is reported.
pub record Transfers (size : ℕ) (before : List ℕ) (s : Socket) (result : IoResult) : Type 0 where
  pub in_order : bytes_read s.log ≡ before ++ result.received
  pub counted : result.size ≡ pos (length result.received)
  pub fits : length result.received ≤ size
  pub whole : (result.error ≢ none) ⊎ (length result.received ≡ size)

some_bytes-none : (r : Received) → some_bytes r ≡ none → bytes_of r ≡ []
unfolding some_bytes
some_bytes-none failed h = refl
some_bytes-none (bytes []) h = refl
some_bytes-none (bytes (b ∷ bs)) h = cc

some_bytes-some :
    (r : Received) (bs : List ℕ) → some_bytes r ≡ some bs → (r ≡ bytes bs) × (0 < length bs)
unfolding some_bytes
some_bytes-some failed bs h = cc
some_bytes-some (bytes []) bs h = cc
some_bytes-some (bytes (x ∷ xs)) bs h = ground arith

-- The loop returns, and what it returns has the property.
abbrev Returns : (Socket → IoResult → Type 0) → Option (Socket × IoResult) → Type 0
Returns P none = ⊥
Returns P (some (s, result)) = P s result

module _ (k : Kernel) (conforms : RecvFits k) (size : ℕ) (before : List ℕ) where
  recv_loop-Transfers :
      (fuel left : ℕ) (got : List ℕ) (s : Socket)
      → left < fuel
      → left + length got ≡ size
      → bytes_read s.log ≡ before ++ got
      → Returns (Transfers size before) (recv_loop k fuel size left got s)
  unfolding recv_loop
  recv_loop-Transfers zero left got s f l b = elim f [ ]
  recv_loop-Transfers (suc fuel) left got s f l b = elim (Bool-cases (left == 0)) [
    | inl e ↦
        rw (e, recv_loop)
          (record {
            in_order = b;
            counted = ground arith;
            fits = omega arith;
            whole = inr (ground arith);
          })
    | inr e ↦ elim (Option-cases (some_bytes (k.recv s.calls left 0))) [
      | inl q ↦
          rw (e, q, recv_loop)
            (record {
              in_order =
                  rw
                    (
                      bytes_read-read s.fd left (k.recv s.calls left 0) s.log,
                      some_bytes-none _ q,
                      append-nil,
                    )
                    b;
              counted = ground arith;
              fits = omega arith;
              whole = inl (λ x. cc);
            })
      | inr (bs, q) ↦
          let (r, more) = some_bytes-some (k.recv s.calls left 0) bs q in
          let room = conforms.fits s.calls left 0 bs r in
          rw (e, q, recv_loop)
            (recv_loop-Transfers fuel (left - length bs) (got ++ bs) _ (omega arith)
              (omega (arith, length-append got bs))
              (rw (bytes_read-read s.fd left (k.recv s.calls left 0) s.log, r, b)
                (append_assoc before got bs)))
    ]
  ]

Returns-some :
    (P : Socket → IoResult → Type 0) (o : Option (Socket × IoResult))
    → Returns P o
    → (s : Socket) × (result : IoResult) × (o ≡ some (s, result)) × P s result
Returns-some P none h = absurd h
Returns-some P (some (s, result)) h = (s, result, refl, h)

-- If recv() never writes more than it is asked for, Recv() of the TCP client returns for every size,
-- whatever pieces the bytes come in: the bytes that it hands over are those that its calls read, in
-- order; the size says how many; there are no more than asked for, and all of them unless an error
-- is reported.
pub recv-Transfers :
    (k : Kernel) (size flag : ℕ) (c : TcpClient)
    → RecvFits k
    → (c' : TcpClient) × (result : IoResult) × (recv k size flag c ≡ some (c', result))
      × Transfers size (bytes_read c.socket.log) c'.socket result
unfolding recv
recv-Transfers k size flag c conforms =
    let before = bytes_read c.socket.log in
    let (s, result, e, t) = Returns-some (Transfers size before) _ (
      recv_loop-Transfers k conforms size before (size + 1) size [] c.socket (omega arith)
        (omega arith) (sym (append-nil before))) in
    (record c { socket = s }, result, rw (recv, e), t)
