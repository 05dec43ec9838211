-- ===== src/Gps/Examples.antt =====
-- The GPS receiver's theorems at concrete inputs.
use host_camera_server.Base.{
  false, ℕ, zero, suc, ◌≤◌, ◌≡◌, refl, List, [], ◌∷◌, ℤ, pos, some, arith, length,
}
use host_camera_server.Net.Kernel.{Received, bytes, IoResult}
use host_camera_server.Gps.Receiver.{
  GpsKernel, Receiver, bytes_of, create, register_callback, write,
}
use host_camera_server.Gps.Writing.{WriteFits, Writes, accepted, write-Writes}
use host_camera_server.Gps.Worker.{Round, work_for}
use host_camera_server.Gps.Worker.Reading.{ReadFits, heard}
use host_camera_server.Gps.Worker.Commands.{Obeys, Ends, translate, work_for-Obeys}
use host_camera_server.Base.{codes, padded, digits, ◌<◌, ◌-◌, ◌==◌, Bool, Option, none, true}
use host_camera_server.Gps.Sample.{
  Doubles, s_size, sentence, do_geo_fix, sentence_parts, angle_parts, time_of, altitude, param,
}
use host_camera_server.Gps.Sample.Bounds.{PrintsShort, do_geo_fix-fits}
use host_camera_server.Gps.Sharing as Sharing
use host_camera_server.Gps.Injection.{
  starts, stops, joins_nothing, injecting, absent, Session, at_start, Move, orders, joins, injects,
  step, run,
}
use host_camera_server.Gps.Injection.Thread.{IsSound, run-IsSound, stop-returns}

abbrev take_one : ℕ → List ℕ → ℤ
take_one n [] = pos 0
take_one n (b ∷ bs) = pos 1

abbrev bring_one : ℕ → ℕ → Received
bring_one n zero = bytes []
bring_one n (suc m) = bytes (1 ∷ [])

-- A server that takes one byte at a time and sends GPS_CMD_START for ever.
abbrev server : GpsKernel
server = record {
  socket = λ n. pos 5;
  connect = λ n address. pos 0;
  write = take_one;
  read = bring_one;
  errno = λ n. 0;
  interrupted = λ n. false;
}

abbrev gps : Receiver
gps = (register_callback (create (49 ∷ []) 0)).0

server_takes : (n m : ℕ) (buf : List ℕ) → take_one n buf ≡ pos m → m ≤ length buf
server_takes n m [] e = ground arith
server_takes n m (b ∷ bs) e = ground arith

server_brings : (n len : ℕ) → length (bytes_of (bring_one n len)) ≤ len
server_brings n zero = omega arith
server_brings n (suc m) = omega arith

server-WriteFits : WriteFits server
server-WriteFits = record { fits = server_takes }

server-ReadFits : ReadFits server
server-ReadFits = record { fits = server_brings }

write-Writes_example :
    (g' : Receiver) × (result : IoResult) × (write server (1 ∷ 2 ∷ []) gps ≡ some (g', result))
    × Writes (1 ∷ 2 ∷ []) (accepted gps.log) g' result
write-Writes_example = write-Writes server (1 ∷ 2 ∷ []) gps server-WriteFits

gps-Obeys : Obeys gps
unfolding register_callback create heard translate
gps-Obeys = record { handler = refl; given = refl }

work_for-Obeys_example :
    (g' : Receiver) × (round : Round) × (work_for server 2 gps ≡ some (g', round))
    × Ends (g', round)
work_for-Obeys_example = work_for-Obeys server 2 gps server-ReadFits gps-Obeys

-- Numbers of one digit in place of double.
abbrev one_digit : List ℕ → Option (ℤ × List ℕ)
one_digit [] = none
one_digit (c ∷ cs) = some (pos (c - 48), cs)

abbrev alike : ℤ → ℤ → Bool
alike (pos m) (pos n) = m == n
alike _ _ = false

abbrev ints : Doubles
ints = record {
  Double = ℤ;
  strtod = one_digit;
  to_int = λ x. x;
  of_int = λ x. x;
  equals = alike;
  below = λ x y. false;
  negate = λ x. x;
  plus = λ x y. x;
  minus = λ x y. pos 0;
  times = λ x y. pos 0;
  print_1g = λ x. 49 ∷ [];
  print_f = λ n x. 49 ∷ [];
  small_step = pos 0;
}

ints-PrintsShort : PrintsShort ints
ints-PrintsShort = record { short = λ x. omega arith }

-- "1 2 3 4 5".
abbrev position : List ℕ
position = 49 ∷ 32 ∷ 50 ∷ 32 ∷ 51 ∷ 32 ∷ 52 ∷ 32 ∷ 53 ∷ []

abbrev fix : List ℕ
fix = sentence ints (some 7200) (pos 1 ∷ pos 2 ∷ pos 3 ∷ pos 4 ∷ pos 5 ∷ []) (pos 5)

position-fix : do_geo_fix ints (some 7200) position ≡ some fix
unfolding do_geo_fix
position-fix = refl

do_geo_fix-fits_example : length fix < s_size
do_geo_fix-fits_example =
    do_geo_fix-fits ints ints-PrintsShort (some 7200) position fix position-fix

abbrev moves : List Move
moves = orders (pos 0) starts ∷ injects (pos 60) ∷ []

run-IsSound_example : IsSound (run moves at_start)
run-IsSound_example = run-IsSound moves (refl, (tt, tt))

abbrev sending : Session
sending = run moves at_start

sending_lem :
    (sending.injector ≡ injecting)
    × (sending.injection_thread_flag ≡ true)
    × (sending.joining ≡ false)
unfolding run at_start step
sending_lem = (refl, refl, refl)

stop-returns_example :
    let t = run (orders (pos 0) stops ∷ injects (pos 60) ∷ injects (pos 60) ∷ joins ∷ []) sending in
    (t.joining ≡ false)
    × (t.injector ≡ absent)
    × (t.joinable ≡ false)
    × (t.injection_thread_flag ≡ false)
stop-returns_example =
    stop-returns moves (pos 0) (pos 60) (pos 60) (refl, (tt, tt)) sending_lem.2 sending_lem.1

-- A start whose pthread_create fails, and a stop.
misused :
    (run (orders (pos 11) starts ∷ orders (pos 0) stops ∷ []) at_start).misuses ≡ joins_nothing ∷ []
unfolding run at_start step
misused = refl

-- The sentence of a fix, character by character.
fix-text : fix ≡ codes "$GPGGA,020000,0200.0000,N,0100.0000,E,1,05,,1,M,0.,M,,,*47\n"
unfolding sentence_parts angle_parts time_of altitude padded digits param
fix-text = refl

-- A connection that the work thread ends, and a second one that the writer ends.
abbrev turns : List Sharing.Move
turns =
    Sharing.connects 5
    ∷ Sharing.meets_end Sharing.worker
    ∷ Sharing.goes_on Sharing.worker
    ∷ Sharing.goes_on Sharing.worker
    ∷ Sharing.goes_on Sharing.worker
    ∷ Sharing.goes_on Sharing.worker
    ∷ Sharing.connects 6
    ∷ Sharing.meets_end Sharing.writer
    ∷ Sharing.goes_on Sharing.writer
    ∷ Sharing.goes_on Sharing.writer
    ∷ Sharing.goes_on Sharing.writer
    ∷ Sharing.goes_on Sharing.writer
    ∷ []

abbrev idle : Sharing.Sharing
idle = Sharing.run turns Sharing.at_start
