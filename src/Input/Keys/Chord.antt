-- ===== src/Input/Keys/Chord.antt =====
-- The events of onKeyCode.
use host_camera_server.Base.{
  ℕ, ◌≡◌, List, [], ◌∷◌, ◌++◌, true, false, ◌&&◌, ◌||◌, ℤ, pos, has_bit, ◌==◌, arith, if◌then◌else◌,
}
use host_camera_server.Input.Device.{
  Platform, Receiver, attempted, sent, all_written, sent-attempted,
}
use host_camera_server.Input.Reader.{held, IsKeyDistinct, newest_first}
use host_camera_server.Input.Keys.{shift, control, mod1, on_key_code}

abbrev pub chosen : ℕ → ℕ → ℕ → List ℕ
chosen mask bit key = if has_bit mask bit then key ∷ [] else []

-- The modifier keys that the mask asks for.
abbrev pub modifiers : Platform → ℕ → List ℕ
modifiers os mask =
    chosen mask shift os.key_leftshift
    ++ (chosen mask control os.key_leftctrl ++ chosen mask mod1 os.key_leftalt)

-- Each key gets its new value, and each event is committed by itself.
abbrev pub turn : Platform → ℤ → List ℕ → List (ℕ × ℕ × ℤ)
turn os value [] = []
turn os value (key ∷ keys) =
    (os.ev_key, key, value) ∷ (os.ev_syn, os.syn_report, pos 0) ∷ turn os value keys

-- Press the modifiers, click the key, release the modifiers in the same order.
abbrev pub chord : Platform → ℕ → ℕ → List (ℕ × ℕ × ℤ)
chord os scan_code mask =
    turn os (pos 1) (modifiers os mask)
    ++ (turn os (pos 1) (scan_code ∷ [])
        ++ (turn os (pos 0) (scan_code ∷ []) ++ turn os (pos 0) (modifiers os mask)))

-- onKeyCode writes exactly the chord of its scan code and mask, and reports 0.
pub on_key_code-chord :
    (os : Platform) (scan_code mask : ℕ) (r : Receiver)
    → (attempted (on_key_code os scan_code mask r).0.effects
        ≡ newest_first (chord os scan_code mask) (attempted r.effects))
      × ((on_key_code os scan_code mask r).1 ≡ pos 0)
unfolding on_key_code attempted
on_key_code-chord os scan_code mask r = ground arith

module _ (os : Platform) (apart : IsKeyDistinct os) (k : ℕ) where
  -- The same of what is written, whether the writes succeed or not.
  on_key_code-attempted :
      (scan_code mask : ℕ) (r : Receiver)
      → held os k (attempted (on_key_code os scan_code mask r).0.effects) ≡ (
          if scan_code == k
            || (has_bit mask shift && os.key_leftshift == k)
            || (has_bit mask control && os.key_leftctrl == k)
            || (has_bit mask mod1 && os.key_leftalt == k)
          then false
          else held os k (attempted r.effects))
  unfolding held
  on_key_code-attempted scan_code mask r =
      rw ((on_key_code-chord os scan_code mask r).0) (ground arith)

  -- If EV_SYN and EV_ABS differ from EV_KEY, and no write fails up to the end of onKeyCode: a key `k`
  -- that a reader of the pipe saw up before onKeyCode is up after it, whatever the scan code and the
  -- mask; and one that it saw down stays down unless `k` is the scan code or a modifier that the mask
  -- asks for, which are all up.
  pub on_key_code-held :
      (scan_code mask : ℕ) (r : Receiver)
      → all_written r.effects ≡ true
      → all_written (on_key_code os scan_code mask r).0.effects ≡ true
      → held os k (sent (on_key_code os scan_code mask r).0.effects) ≡ (
          if scan_code == k
            || (has_bit mask shift && os.key_leftshift == k)
            || (has_bit mask control && os.key_leftctrl == k)
            || (has_bit mask mod1 && os.key_leftalt == k)
          then false
          else held os k (sent r.effects))
  on_key_code-held scan_code mask r before after =
      rw
        (
          sent-attempted (on_key_code os scan_code mask r).0.effects after,
          sent-attempted r.effects before,
        )
        (on_key_code-attempted scan_code mask r)
