-- ===== src/Clients/Sensors/First.antt =====
-- Which packets the program of Sensors obeys.
use host_camera_server.Base.{
  ℕ, ◌≤◌, ◌<◌, ◌≡◌, refl, ap, ◌∙◌, inl, inr, Bool-cases, List, [], ◌∷◌, Bool, true, false, ◌==◌,
  Option, none, some, if◌then◌else◌, arith,
}
use host_camera_server.Net.Client.{StreamClient}
use host_camera_server.Sensor.Interface.{CtrlPacket, SensorDataPacket}
use host_camera_server.Clients.Sensors.{
  SensorMap, insert, note, notes, accelerometer, is_set, send_event, visit, pass,
}

abbrev pub lookup : ℕ → SensorMap → Option ℕ
lookup type [] = none
lookup type ((t, f) ∷ m) = if type == t then some f else lookup type m

-- The keys grow from a bound on.
abbrev IsAbove : ℕ → SensorMap → Type 0
IsAbove b [] = Unit
IsAbove b ((t, f) ∷ m) = (b < t) × IsAbove t m

abbrev pub IsSorted : SensorMap → Type 0
IsSorted [] = Unit
IsSorted ((t, f) ∷ m) = IsAbove t m

-- The flag of the first packet of a type.
abbrev pub first_flag : ℕ → List CtrlPacket → Option ℕ
first_flag type [] = none
first_flag type (p ∷ ps) = if type == p.type then some p.enabled else first_flag type ps

abbrev orelse : Option ℕ → Option ℕ → Option ℕ
orelse none o = o
orelse (some z) o = some z

insert-IsAbove :
    (b type : ℕ) (flag : ℕ) (m : SensorMap)
    → b < type
    → IsAbove b m
    → IsAbove b (insert type flag m)
unfolding insert
insert-IsAbove b type flag [] h a = (h, tt)
insert-IsAbove b type flag ((t, f) ∷ m) h a = ground (arith, h, a, insert-IsAbove t type flag m)

insert-IsSorted : (type : ℕ) (flag : ℕ) (m : SensorMap) → IsSorted m → IsSorted (insert type flag m)
unfolding insert
insert-IsSorted type flag [] h = tt
insert-IsSorted type flag ((t, f) ∷ m) h = ground (arith, h, insert-IsAbove t type flag m)

IsAbove-IsSorted : (b : ℕ) (m : SensorMap) → IsAbove b m → IsSorted m
IsAbove-IsSorted b [] h = tt
IsAbove-IsSorted b ((t, f) ∷ m) h = h.1

lookup-above : (b type : ℕ) (m : SensorMap) → type < b → IsAbove b m → lookup type m ≡ none
lookup-above b type [] h a = refl
lookup-above b type ((t, f) ∷ m) h a = ground (arith, h, a, lookup-above t type m)

lookup-insert :
    (j type : ℕ) (flag : ℕ) (m : SensorMap)
    → IsSorted m
    → lookup j (insert type flag m) ≡ orelse (lookup j m) (if j == type then some flag else none)
unfolding insert
lookup-insert j type flag [] h = ground arith
lookup-insert j type flag ((t, f) ∷ m) h =
    ground (arith, h, IsAbove-IsSorted t m h, lookup-above t j m, lookup-insert j type flag m)

lookup-notes :
    (j : ℕ) (ps : List CtrlPacket) (m : SensorMap)
    → IsSorted m
    → lookup j (notes ps m) ≡ orelse (lookup j m) (first_flag j ps)
unfolding notes note
lookup-notes j [] m h = ground arith
lookup-notes j (p ∷ ps) m h = ground (
  arith,
  lookup-insert j p.type p.enabled m h,
  lookup-notes j ps (insert p.type p.enabled m) (insert-IsSorted p.type p.enabled m h),
)

notes-IsSorted : (ps : List CtrlPacket) (m : SensorMap) → IsSorted m → IsSorted (notes ps m)
unfolding notes note
notes-IsSorted [] m h = h
notes-IsSorted (p ∷ ps) m h = notes-IsSorted ps _ (insert-IsSorted p.type p.enabled m h)

-- Whether a flag calls for data.
abbrev pub wanted : Option ℕ → Bool
wanted none = false
wanted (some flag) = is_set flag

module _ (net : StreamClient) (clock : ℕ × ℕ) where
  visit-other :
      (t f : ℕ) (x : SensorDataPacket × net.State)
      → (t == accelerometer) ≡ false
      → visit net clock t f x ≡ x
  unfolding visit
  visit-other t f x h = rw (visit, h)

  visit-accelerometer :
      (t f : ℕ) (x : SensorDataPacket × net.State)
      → (t == accelerometer) ≡ true
      → visit net clock t f x ≡ (if is_set f then send_event net clock x else x)
  unfolding visit
  visit-accelerometer t f x h = rw (visit, h)

  pass-absent :
      (b : ℕ) (m : SensorMap) (x : SensorDataPacket × net.State)
      → accelerometer ≤ b
      → IsAbove b m
      → pass net clock m x ≡ x
  unfolding pass
  pass-absent b [] x hb h = refl
  pass-absent b ((t, f) ∷ m) x hb h =
      let other : (t == accelerometer) ≡ false = ground (arith, hb, h.0) in
      ap (pass net clock m) (visit-other t f x other)
      ∙ pass-absent t m x (omega (arith, hb, h.0)) h.1

  pass-lookup :
      (m : SensorMap) (x : SensorDataPacket × net.State)
      → IsSorted m
      → pass net clock m x ≡ (if wanted (lookup accelerometer m) then send_event net clock x else x)
  unfolding pass
  pass-lookup [] x h = refl
  pass-lookup ((t, f) ∷ m) x h = elim (Bool-cases (t == accelerometer)) [
    | inl is ↦
        let same : (accelerometer == t) ≡ true = ground (arith, is) in
        rw same (
          pass-absent t m (visit net clock t f x) (ground (arith, is)) h
          ∙ visit-accelerometer t f x is)
    | inr other ↦
        let differs : (accelerometer == t) ≡ false = ground (arith, other) in
        rw differs (
          ap (pass net clock m) (visit-other t f x other)
          ∙ pass-lookup m x (IsAbove-IsSorted t m h))
  ]

  -- After the callback has taken any packets, a pass of the thread sends one event of the
  -- accelerometer exactly if the first packet of that type enabled it: later packets of the type
  -- change nothing.
  pub pass-notes :
      (ps : List CtrlPacket) (x : SensorDataPacket × net.State)
      → pass net clock (notes ps []) x
        ≡ (if wanted (first_flag accelerometer ps) then send_event net clock x else x)
  pass-notes ps x =
      rw
        (pass-lookup (notes ps []) x (notes-IsSorted ps [] tt), lookup-notes accelerometer ps [] tt)
