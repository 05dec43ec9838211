-- ===== src/Input/Device.antt =====
-- The device behind a VirtualInputReceiver: its file descriptor, the contacts, and the events that
-- go to the pipe (SendEvent, SendCommit, SendWait, CreateTouchDevice, the destructor).
use host_camera_server.Base.{
  ℕ, ◌+◌, ◌*◌, ◌/◌, List, [], ◌∷◌, Bool, true, false, ℤ, pos, is_neg, not, replicate, u32, ◌≡◌,
  refl, ◌&&◌, if◌then◌else◌, arith,
}

pub record Timespec : Type 0 where
  pub tv_sec : ℕ
  pub tv_nsec : ℕ

-- What the receiver takes from the system: the event numbers of <linux/input.h>, the n-th reading
-- of the clock, the result of the n-th write, and what the stack holds where the joystick code
-- leaves `code` and `value` without an initial value.
pub record Platform : Type 0 where
  pub ev_syn : ℕ
  pub ev_key : ℕ
  pub ev_abs : ℕ
  pub ev_msc : ℕ
  pub syn_report : ℕ
  pub btn_touch : ℕ
  pub abs_mt_slot : ℕ
  pub abs_mt_touch_major : ℕ
  pub abs_mt_width_major : ℕ
  pub abs_mt_position_x : ℕ
  pub abs_mt_position_y : ℕ
  pub abs_mt_tracking_id : ℕ
  pub abs_mt_pressure : ℕ
  pub key_leftshift : ℕ
  pub key_leftctrl : ℕ
  pub key_leftalt : ℕ
  pub clock : ℕ → Timespec
  pub write : ℤ → ℕ → ℤ
  pub stack_code : ℕ → ℕ
  pub stack_value : ℕ → ℤ

-- struct input_event.
pub record InputEvent : Type 0 where
  pub tv_sec : ℕ
  pub tv_usec : ℕ
  pub type : ℕ
  pub code : ℕ
  pub value : ℤ

-- What the receiver does to the outside: a write with its result, or a sleep in microseconds.
pub data Effect : Type 0 where
  wrote : InputEvent → ℤ → Effect
  slept : ℕ → Effect

-- struct Contact; its x, y and pressure are never read or written. `tracking_id` is the bit pattern
-- of an int32_t.
pub record Contact : Type 0 where
  pub enabled : Bool
  pub tracking_id : ℕ

abbrev pub max_slot : ℕ
max_slot = 9

abbrev pub max_position_x : ℕ
max_position_x = 32767

abbrev pub max_position_y : ℕ
max_position_y = 32767

abbrev pub max_pressure : ℕ
max_pressure = 255

-- The fields of VirtualInputReceiver. `calls` counts the writes and `effects` holds what was done,
-- newest first.
pub record Receiver : Type 0 where
  pub fd : ℤ
  pub contacts : List Contact
  pub tracking_id : ℕ
  pub enabled_slots : ℕ
  pub calls : ℕ
  pub effects : List Effect

abbrev pub free_contact : Contact
free_contact = record { enabled = false; tracking_id = 0 }

-- The constructor, given what open() returned, and whether it reported success.
unfoldable pub create_touch_device : ℤ → Receiver × Bool
create_touch_device fd = (
  record {
    fd = fd;
    contacts = replicate max_slot free_contact;
    tracking_id = 0;
    enabled_slots = 0;
    calls = 0;
    effects = [];
  },
  not (is_neg fd),
)

module _ (os : Platform) where
  unfoldable pub stamped : ℕ → ℕ → ℤ → Receiver → InputEvent
  stamped type code value r = record {
    tv_sec = (os.clock r.calls).tv_sec;
    tv_usec = (os.clock r.calls).tv_nsec / 1000;
    type = type;
    code = code;
    value = value;
  }

  unfoldable pub send_event : ℕ → ℕ → ℤ → Receiver → Receiver × Bool
  unfolding stamped
  send_event type code value r = (
    record r {
      calls = r.calls + 1;
      effects = wrote (stamped type code value r) (os.write r.fd r.calls) ∷ r.effects;
    },
    not (is_neg (os.write r.fd r.calls)),
  )

  -- Every caller drops the result of SendEvent.
  abbrev pub emit : ℕ → ℕ → ℤ → Receiver → Receiver
  emit type code value r = (send_event type code value r).0

  unfoldable pub send_commit : Receiver → Receiver × Bool
  unfolding send_event
  send_commit r = (emit os.ev_syn os.syn_report (pos 0) r, true)

  abbrev pub commit : Receiver → Receiver
  commit r = (send_commit r).0

-- `usleep` of the wait in microseconds, computed as a uint32_t.
unfoldable pub send_wait : ℕ → Receiver → Receiver
send_wait ms r = record r { effects = slept (u32 (ms * 1000)) ∷ r.effects }

-- What is written to the pipe, newest first: type, code and value of each event, whatever the result
-- of the write.
unfoldable pub attempted : List Effect → List (ℕ × ℕ × ℤ)
attempted [] = []
attempted (wrote e result ∷ effects) = (e.type, e.code, e.value) ∷ attempted effects
attempted (slept us ∷ effects) = attempted effects

-- What a reader of the pipe gets, newest first: an event whose write failed does not reach it.
unfoldable pub sent : List Effect → List (ℕ × ℕ × ℤ)
sent [] = []
sent (wrote e result ∷ effects) =
    let before = sent effects in
    if is_neg result then before else (e.type, e.code, e.value) ∷ before
sent (slept us ∷ effects) = sent effects

-- No write has failed.
unfoldable pub all_written : List Effect → Bool
all_written [] = true
all_written (wrote e result ∷ effects) = not (is_neg result) && all_written effects
all_written (slept us ∷ effects) = all_written effects

pub sent-attempted :
    (effects : List Effect) → all_written effects ≡ true → sent effects ≡ attempted effects
unfolding sent attempted all_written
sent-attempted [] w = refl
sent-attempted (wrote e result ∷ effects) w = ground (arith, sent-attempted effects)
sent-attempted (slept us ∷ effects) w = sent-attempted effects w
