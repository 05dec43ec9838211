-- ===== src/Gps/Writing.antt =====
-- Write() of source/virtual_gps_receiver.cc hands the whole buffer over, across short writes and
-- interrupted calls.
use host_camera_server.Base.{
  ℕ, zero, suc, ◌+◌, ◌≤◌, ◌<◌, ◌≡◌, ◌≢◌, refl, sym, ap, ◌∙◌, ◌⊎◌, inl, inr, List, [], ◌∷◌, ◌++◌,
  Bool, true, ℤ, pos, negsuc, Option, none, some, arith, length, length-append, take, drop,
  append-nil, append_assoc, take-append_drop, length-take, length-drop, ◌==◌, Bool-cases,
}
use host_camera_server.Net.Kernel.{Syscall, opened, dialled, wrote, read, shut, closed, IoResult}
use host_camera_server.Gps.Receiver.{
  GpsKernel, Receiver, disconnect, sign_of, amount, Turn, retries, ends, errs, moves, turn,
  write_loop, write,
}

-- write() takes no more than it is given.
pub record WriteFits (k : GpsKernel) : Type 0 where
  pub fits : (n m : ℕ) (buf : List ℕ) → k.write n buf ≡ pos m → m ≤ length buf

-- The bytes that the writes of a log, newest first, have taken, oldest first.
unfoldable pub accepted : List Syscall → List ℕ
accepted [] = []
accepted (wrote fd buf result ∷ log) = accepted log ++ take (amount result) buf
accepted (opened fd ∷ log) = accepted log
accepted (dialled fd address ∷ log) = accepted log
accepted (read fd size result ∷ log) = accepted log
accepted (shut fd ∷ log) = accepted log
accepted (closed fd ∷ log) = accepted log

-- What Write() of `buf` has done when it returns, from a log with the bytes `before`: it reports the
-- whole length, and the bytes have been taken, each once and in order; or it reports an error and no
-- positive number, and the first part of them has been taken.
abbrev pub Writes : List ℕ → List ℕ → Receiver → IoResult → Type 0
Writes buf before g result =
    ((result.size ≡ pos (length buf)) × (result.error ≡ none) × (accepted g.log ≡ before ++ buf))
    ⊎ ((done : List ℕ) × (rest : List ℕ) × (done ++ rest ≡ buf)
        × (accepted g.log ≡ before ++ done)
        × (amount result.size ≡ 0)
        × (result.error ≢ none))

-- The call returns, and the result has the property.
abbrev pub Returns : (Receiver → IoResult → Type 0) → Option (Receiver × IoResult) → Type 0
Returns P none = ⊥
Returns P (some (g, result)) = P g result

turn-moves :
    (z : ℤ) (i : Bool) (a : ℕ)
    → turn (sign_of z) i a ≡ moves
    → (z ≡ pos (amount z)) × (0 < amount z)
unfolding turn
turn-moves (pos n) i a h = ground arith
turn-moves (negsuc n) i a h = ground arith

turn-retries :
    (z : ℤ) (i : Bool) (a a' : ℕ)
    → turn (sign_of z) i a ≡ retries a'
    → 0 < a
    → a < 101
    → (amount z ≡ 0) × (0 < a') × (a' < a)
unfolding turn
turn-retries (pos n) i a a' h p q = ground arith
turn-retries (negsuc n) i a a' h p q = ground arith

turn-stops :
    (z : ℤ) (i : Bool) (a : ℕ)
    → (turn (sign_of z) i a ≡ ends) ⊎ (turn (sign_of z) i a ≡ errs)
    → amount z ≡ 0
unfolding turn
turn-stops (pos n) i a h = ground arith
turn-stops (negsuc n) i a h = ground arith

-- The four turns, with the equation.
Turn-cases : (t : Turn) → ((a : ℕ) × (t ≡ retries a)) ⊎ ((t ≡ ends) ⊎ ((t ≡ errs) ⊎ (t ≡ moves)))
Turn-cases (retries a) = inl (a, refl)
Turn-cases ends = inr (inl refl)
Turn-cases errs = inr (inr (inl refl))
Turn-cases moves = inr (inr (inr refl))

accepted-none :
    (fd z : ℤ) (buf : List ℕ) (log : List Syscall)
    → amount z ≡ 0
    → accepted (wrote fd buf z ∷ log) ≡ accepted log
unfolding accepted
accepted-none fd z buf log h = rw h (append-nil (accepted log))

accepted-disconnect : (g : Receiver) → accepted (disconnect g).0.log ≡ accepted g.log
unfolding accepted disconnect
accepted-disconnect g = ground arith

accepted-wrote :
    (fd z : ℤ) (buf : List ℕ) (log : List Syscall)
    → accepted (wrote fd buf z ∷ log) ≡ accepted log ++ take (amount z) buf
unfolding accepted
accepted-wrote fd z buf log = refl

nothing_left :
    (done rest buf : List ℕ) → (length rest == 0) ≡ true → done ++ rest ≡ buf → done ≡ buf
nothing_left done [] buf z e = sym (append-nil done) ∙ e
nothing_left done (x ∷ rest) buf z e = absurd (ground arith)

length-append_take :
    (done rest : List ℕ) (m : ℕ) → m ≤ length rest → length (done ++ take m rest) ≡ length done + m
length-append_take done rest m h =
    omega (arith, length-append done (take m rest), length-take m rest)

module _ (k : GpsKernel) (conforms : WriteFits k) (buf before : List ℕ) where
  write_loop-Writes :
      (fuel a : ℕ) (done rest : List ℕ) (g : Receiver)
      → length rest + a < fuel
      → 0 < a
      → a < 101
      → done ++ rest ≡ buf
      → accepted g.log ≡ before ++ done
      → Returns (Writes buf before) (write_loop k fuel a (length done) rest g)
  unfolding write_loop
  write_loop-Writes zero a done rest g f p q e w = elim f [ ]
  write_loop-Writes (suc fuel) a done rest g f p q e w = elim (Bool-cases (length rest == 0)) [
    | inl z ↦
        let all = nothing_left done rest buf z e in
        rw (z, write_loop) (inl (ap (λ xs. pos (length xs)) all, refl, rw (← all) w))
    | inr z ↦
        let size = k.write g.calls rest in
        let i = k.interrupted g.calls in
        elim (Turn-cases (turn (sign_of size) i a)) [
          | inl (a', t) ↦
              let (none_taken, more, less) = turn-retries size i a a' t p q in
              rw (z, t, write_loop)
                (write_loop-Writes fuel a' done rest _ (omega arith) more (omega arith) e
                  (accepted-none g.sock size rest g.log none_taken ∙ w))
          | inr (inl t) ↦
              let none_taken = turn-stops size i a (inl t) in
              let same = accepted-disconnect _ ∙ accepted-none g.sock size rest g.log none_taken in
              rw (z, t, write_loop) (inr (done, rest, e, same ∙ w, none_taken, λ x. cc))
          | inr (inr (inl t)) ↦
              let none_taken = turn-stops size i a (inr t) in
              let same = accepted-none g.sock size rest g.log none_taken in
              rw (z, t, write_loop) (inr (done, rest, e, same ∙ w, none_taken, λ x. cc))
          | inr (inr (inr t)) ↦
              let m = amount size in
              let (is_m, some_taken) = turn-moves size i a t in
              let room = conforms.fits g.calls m rest is_m in
              let taken = accepted-wrote g.sock size rest g.log in
              rw (z, t, write_loop, ← length-append_take done rest m room)
                (write_loop-Writes fuel a (done ++ take m rest) (drop m rest) _
                  (omega (arith, length-drop m rest)) p q
                  (rw (append_assoc done (take m rest) (drop m rest), take-append_drop m rest) e)
                  (rw (taken, w) (append_assoc before done (take m rest))))
        ]
  ]

Returns-some :
    (P : Receiver → IoResult → Type 0) (o : Option (Receiver × IoResult))
    → Returns P o
    → (g : Receiver) × (result : IoResult) × (o ≡ some (g, result)) × P g result
Returns-some P none h = absurd h
Returns-some P (some (g, result)) h = (g, result, refl, h)

-- If write() never takes more than it is given, Write() returns for every buffer, whatever the calls
-- return and however often they are interrupted. Either it reports the whole length, and every byte
-- has been taken once and in order; or it reports an error and no positive number, and the first
-- part of the buffer has been taken.
pub write-Writes :
    (k : GpsKernel) (buf : List ℕ) (g : Receiver)
    → WriteFits k
    → (g' : Receiver) × (result : IoResult) × (write k buf g ≡ some (g', result))
      × Writes buf (accepted g.log) g' result
unfolding write
write-Writes k buf g conforms =
    let start = sym (append-nil (accepted g.log)) in
    Returns-some (Writes buf (accepted g.log)) _ (
      write_loop-Writes k conforms buf (accepted g.log) (length buf + 101) 100 [] buf g
        (omega arith) (omega arith) (omega arith) refl start)
