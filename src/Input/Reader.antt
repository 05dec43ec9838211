-- ===== src/Input/Reader.antt =====
-- What a program that reads the input pipe knows from the events that were sent to it.
use host_camera_server.Base.{
  ℕ, ◌≢◌, List, [], ◌∷◌, Bool, true, false, ◌&&◌, ℤ, pos, negsuc, ◌==◌, if◌then◌else◌,
}
use host_camera_server.Input.Device.{Platform}

abbrev pub is_zero : ℤ → Bool
is_zero (pos n) = n == 0
is_zero (negsuc n) = false

-- Whether a key is down after the events, newest first: the last EV_KEY event with its code says.
unfoldable pub held : Platform → ℕ → List (ℕ × ℕ × ℤ) → Bool
held os code [] = false
held os code ((t, c, v) ∷ es) =
    if t == os.ev_key && c == code then (if is_zero v then false else true) else held os code es

-- The other event types differ from EV_KEY.
pub record IsKeyDistinct (os : Platform) : Type 0 where
  pub abs_apart : os.ev_abs ≢ os.ev_key
  pub syn_apart : os.ev_syn ≢ os.ev_key

-- A stretch of events, oldest first, put in front of older ones.
abbrev pub newest_first : List (ℕ × ℕ × ℤ) → List (ℕ × ℕ × ℤ) → List (ℕ × ℕ × ℤ)
newest_first [] older = older
newest_first (e ∷ es) older = newest_first es (e ∷ older)
