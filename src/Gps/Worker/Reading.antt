-- ===== src/Gps/Worker/Reading.antt =====
-- What Read() and Connect() of source/virtual_gps_receiver.cc do for the work thread.
use host_camera_server.Base.{
  ℕ, zero, suc, ◌+◌, ◌≤◌, ◌<◌, ◌≡◌, refl, ap, ◌∙◌, ◌⊎◌, inl, inr, List, [], ◌∷◌, ◌++◌, Bool, true,
  false, pos, negsuc, is_neg, ltb, Option, none, some, arith, length, Bool-cases,
}
use host_camera_server.Net.Kernel.{
  Received, failed, bytes, Syscall, opened, dialled, wrote, read, shut, closed, IoResult,
}
use host_camera_server.Gps.Receiver.{
  GpsKernel, Receiver, calling, disconnect, dial, open_socket, connect, read_sign, retries, ends,
  errs, moves, turn, decrement, reply, bytes_of, read_loop,
}

-- read() brings no more than it is asked for.
pub record ReadFits (k : GpsKernel) : Type 0 where
  pub fits : (n len : ℕ) → length (bytes_of (k.read n len)) ≤ len

-- The bytes that the reads of a log of one-byte reads have brought, newest first.
unfoldable pub heard : List Syscall → List ℕ
heard [] = []
heard (read fd size result ∷ log) = bytes_of result ++ heard log
heard (wrote fd buf result ∷ log) = heard log
heard (opened fd ∷ log) = heard log
heard (dialled fd address ∷ log) = heard log
heard (shut fd ∷ log) = heard log
heard (closed fd ∷ log) = heard log

-- The receiver has the same handler, commands and bytes as another.
pub record IsAlike (g g' : Receiver) : Type 0 where
  pub handler : g'.has_handler ≡ g.has_handler
  pub commands : g'.commands ≡ g.commands
  pub log : heard g'.log ≡ heard g.log
  pub stop : g'.stop ≡ g.stop

disconnect-IsAlike : (g : Receiver) → IsAlike g (disconnect g).0
unfolding disconnect heard
disconnect-IsAlike g = ground arith

dial-IsAlike : (k : GpsKernel) (g : Receiver) → IsAlike g (dial k g).0
unfolding dial heard
dial-IsAlike k g = ground arith

open_socket-IsAlike : (k : GpsKernel) (g : Receiver) → IsAlike g (open_socket k g).0
unfolding open_socket dial heard
open_socket-IsAlike k g = ground arith

pub connect-IsAlike : (k : GpsKernel) (g : Receiver) → IsAlike g (connect k g).0
unfolding connect
connect-IsAlike k g =
    ground
      (arith, disconnect-IsAlike g, open_socket-IsAlike k g, open_socket-IsAlike k (disconnect g).0)

-- What a Read() of one byte has done, from a receiver `g`: it brought the byte; or the server closed,
-- and the socket is closed too; or an error is reported.
abbrev pub ReadsByte : Receiver → Receiver → IoResult → Type 0
ReadsByte g g' result =
    ((b : ℕ) × (result.size ≡ pos 1)
      × (result.received ≡ b ∷ [])
      × (heard g'.log ≡ b ∷ heard g.log)
      × (g'.commands ≡ g.commands)
      × (g'.has_handler ≡ g.has_handler))
    ⊎ (((result.size ≡ pos 0) × IsAlike g g' × (is_neg g'.sock ≡ true))
        ⊎ ((result.size ≡ negsuc 0) × IsAlike g g'))

abbrev pub Returns {ℓ} : {A : Type ℓ} → (A → Type 0) → Option A → Type 0
Returns P none = ⊥
Returns P (some a) = P a

turn-read :
    (r : Received) (i : Bool) (a : ℕ)
    → 0 < a
    → a < 101
    → ((a' : ℕ) × (turn (read_sign r) i a ≡ retries a') × (r ≡ failed) × (0 < a') × (a' < a))
      ⊎ (((turn (read_sign r) i a ≡ ends) × (r ≡ bytes []))
          ⊎ (((turn (read_sign r) i a ≡ errs) × (r ≡ failed))
              ⊎ ((turn (read_sign r) i a ≡ moves)
                  × (b : ℕ) × (bs : List ℕ) × (r ≡ bytes (b ∷ bs)))))
unfolding turn
turn-read failed false a p q = inr (inr (inl (refl, refl)))
turn-read failed true a p q = elim (Bool-cases (ltb 0 (decrement a))) [
  | inl h ↦ inl (decrement a, ground arith, refl, ground arith, ground arith)
  | inr h ↦ inr (inr (inl (ground arith, refl)))
]
turn-read (bytes []) i a p q = inr (inl (refl, refl))
turn-read (bytes (b ∷ bs)) i a p q = inr (inr (inr (refl, b, bs, refl)))

disconnect-sock : (g : Receiver) → is_neg (disconnect g).0.sock ≡ true
unfolding disconnect
disconnect-sock g = ground arith

IsAlike-calling :
    (g0 g : Receiver) (r : Received)
    → bytes_of r ≡ []
    → IsAlike g0 g
    → IsAlike g0 (calling (read g.sock 1 r) g)
unfolding heard
IsAlike-calling g0 g r e a = ground (arith, a)

IsAlike-trans : (g0 g1 g2 : Receiver) → IsAlike g0 g1 → IsAlike g1 g2 → IsAlike g0 g2
IsAlike-trans g0 g1 g2 a b = record {
  handler = b.handler ∙ a.handler;
  commands = b.commands ∙ a.commands;
  log = b.log ∙ a.log;
  stop = b.stop ∙ a.stop;
}

moves_one :
    (g0 g : Receiver) (b : ℕ)
    → IsAlike g0 g
    → heard (read g.sock 1 (bytes (b ∷ [])) ∷ g.log) ≡ b ∷ heard g0.log
unfolding heard
moves_one g0 g b a = ap (λ xs. b ∷ xs) a.log

only_one :
    (r : Received) (b : ℕ) (bs : List ℕ) → r ≡ bytes (b ∷ bs) → length (bytes_of r) ≤ 1 → bs ≡ []
only_one r b [] e h = refl
only_one r b (c ∷ bs) e h =
    let same = ap (λ x. length (bytes_of x)) e in absurd (omega (arith, same))

read_loop-full :
    (k : GpsKernel) (fuel a : ℕ) (got : List ℕ) (g : Receiver)
    → 0 < fuel
    → read_loop k fuel a 0 got g ≡ some (g, reply (pos (length got)) got none)
unfolding read_loop
read_loop-full k zero a got g h = elim h [ ]
read_loop-full k (suc fuel) a got g h = refl

pub read_loop-ReadsByte :
    (k : GpsKernel) (fits : ReadFits k) (g0 : Receiver) (fuel a : ℕ) (g : Receiver)
    → 1 + a < fuel
    → 0 < a
    → a < 101
    → IsAlike g0 g
    → Returns (λ x. ReadsByte g0 x.0 x.1) (read_loop k fuel a 1 [] g)
unfolding read_loop
read_loop-ReadsByte k fits g0 zero a g f p q al = elim f [ ]
read_loop-ReadsByte k fits g0 (suc fuel) a g f p q al =
    let r = k.read g.calls 1 in
    elim (turn-read r (k.interrupted g.calls) a p q) [
      | inl (a', t, e, more, less) ↦
          rw (t, read_loop)
            (read_loop-ReadsByte k fits g0 fuel a' _ (omega arith) more (omega arith)
              (IsAlike-calling g0 g r (ap bytes_of e) al))
      | inr (inl (t, e)) ↦
          let al' = IsAlike-calling g0 g r (ap bytes_of e) al in
          rw (t, read_loop)
            (inr (inl (refl, IsAlike-trans g0 _ _ al' (disconnect-IsAlike _), disconnect-sock _)))
      | inr (inr (inl (t, e))) ↦
          rw (t, read_loop) (inr (inr (refl, IsAlike-calling g0 g r (ap bytes_of e) al)))
      | inr (inr (inr (t, b, bs, e))) ↦
          let one = only_one r b bs e (fits.fits g.calls 1) in
          let e' = e ∙ ap (λ xs. bytes (b ∷ xs)) one in
          rw (t, e', read_loop, read_loop-full k fuel a (b ∷ []) _ (omega arith))
            (inl (b, refl, refl, moves_one g0 g b al, al.commands, al.handler))
    ]

pub IsAlike-refl : (g : Receiver) → IsAlike g g
IsAlike-refl g = record { handler = refl; commands = refl; log = refl; stop = refl }
