-- ===== src/Input/Touch.antt =====
-- Touch contacts: SendDown, SendUp, SendMove, SendReset and getTouchInfo of
-- source/virtual_input_receiver.cc.
pub mod Slots
pub mod Button
pub mod Mirror
use host_camera_server.Base.{
  ℕ, zero, suc, ◌+◌, ◌-◌, List, [], ◌∷◌, Bool, true, false, ◌||◌, not, ℤ, pos, negsuc, get_or, set,
  Option, none, some, u32, signed32, pattern32, leb, ◌==◌, if◌then◌else◌, ◌▹◌,
}
use host_camera_server.Input.Device.{
  Platform, Contact, Receiver, free_contact, max_slot, max_position_x, max_position_y, max_pressure,
  send_event, emit, send_commit, send_wait,
}

abbrev pub contact : List Contact → ℕ → Contact
contact cs i = get_or cs i free_contact

-- The loop of SendReset over the contacts, and its `report`.
unfoldable pub disable_all : List Contact → List Contact × Bool
disable_all [] = ([], false)
disable_all (c ∷ cs) =
    let (rest, report) = disable_all cs in
    (record c { enabled = false } ∷ rest, c.enabled || report)

-- `mContacts[slot]` becomes enabled with the next tracking id.
unfoldable pub enable : ℕ → Receiver → Receiver
enable slot r = record r {
  contacts = set r.contacts slot (record { enabled = true; tracking_id = r.tracking_id });
  tracking_id = u32 (r.tracking_id + 1);
  enabled_slots = u32 (r.enabled_slots + 1);
}

-- `mContacts[slot]` becomes free.
unfoldable pub disable : ℕ → Receiver → Receiver
disable slot r = record r {
  contacts = set r.contacts slot (record (contact r.contacts slot) { enabled = false });
  enabled_slots = r.enabled_slots - 1;
}

module _ (os : Platform) where
  unfoldable pub send_reset : Receiver → Receiver × Bool
  unfolding send_event disable_all
  send_reset r =
      let (cs, report) = disable_all r.contacts in
      let r1 = record r { contacts = cs } in
      (if report then emit os os.ev_syn os.syn_report (pos 0) r1 else r1, true)

  -- The slot is free and one may be enabled: the state after the reset, if there is one.
  unfoldable pub make_room : ℕ → Receiver → Receiver
  unfolding send_reset
  make_room slot r =
      if (contact r.contacts slot).enabled || leb max_slot r.enabled_slots
      then (send_reset r).0
      else r

  -- The touch button goes down with the first contact.
  unfoldable pub press_first : Receiver → Receiver
  unfolding send_event
  press_first r = if r.enabled_slots == 1 then emit os os.ev_key os.btn_touch (pos 1) r else r

  -- The five events on size, pressure and position that SendDown and SendMove both send.
  unfoldable pub send_position : ℤ → ℤ → ℤ → Receiver → Receiver
  unfolding send_event
  send_position x y pressure r =
      r
      ▹ emit os os.ev_abs os.abs_mt_touch_major (pos 4)
      ▹ emit os os.ev_abs os.abs_mt_width_major (pos 6)
      ▹ emit os os.ev_abs os.abs_mt_pressure pressure
      ▹ emit os os.ev_abs os.abs_mt_position_x x
      ▹ emit os os.ev_abs os.abs_mt_position_y y

  unfoldable pub announce : ℤ → Receiver → Receiver
  unfolding send_event press_first
  announce slot r =
      r
      ▹ emit os os.ev_abs os.abs_mt_slot slot
      ▹ emit os os.ev_abs os.abs_mt_tracking_id
          (signed32 (contact r.contacts (pattern32 slot)).tracking_id)
      ▹ press_first

  unfoldable pub send_down : ℤ → ℤ → ℤ → ℤ → Receiver → Receiver × Bool
  unfolding make_room enable announce send_position
  send_down slot x y pressure r = if leb max_slot (pattern32 slot) then (r, false) else (
    r
        ▹ make_room (pattern32 slot)
        ▹ enable (pattern32 slot)
        ▹ announce slot
        ▹ send_position x y pressure,
    true,
  )

  -- The touch button goes up with the last contact.
  unfoldable pub release_last : Receiver → Receiver
  unfolding send_event
  release_last r = if r.enabled_slots == 0 then emit os os.ev_key os.btn_touch (pos 0) r else r

  unfoldable pub send_up : ℤ → Receiver → Receiver × Bool
  unfolding disable send_event release_last
  send_up slot r =
      if r.enabled_slots == 0
        || leb max_slot (pattern32 slot)
        || not (contact r.contacts (pattern32 slot)).enabled
      then (r, false)
      else (
        r
            ▹ disable (pattern32 slot)
            ▹ emit os os.ev_abs os.abs_mt_slot slot
            ▹ emit os os.ev_abs os.abs_mt_tracking_id (negsuc 0)
            ▹ release_last,
        true,
      )

  unfoldable pub send_move : ℤ → ℤ → ℤ → ℤ → Receiver → Receiver × Bool
  unfolding send_event send_position
  send_move slot x y pressure r =
      if leb max_slot (pattern32 slot) || not (contact r.contacts (pattern32 slot)).enabled
      then (r, false)
      else (r ▹ emit os os.ev_abs os.abs_mt_slot slot ▹ send_position x y pressure, true)

-- The calls that a parsed touch command makes.
pub data Call : Type 0 where
  commit reset : Call
  down move : ℤ → ℤ → ℤ → ℤ → Call
  up : ℤ → Call
  wait : ℕ → Call

unfoldable pub perform : Platform → Call → Receiver → Receiver
unfolding send_commit send_reset send_down send_move send_up send_wait
perform os commit r = (send_commit os r).0
perform os reset r = (send_reset os r).0
perform os (down slot x y pressure) r = (send_down os slot x y pressure r).0
perform os (move slot x y pressure) r = (send_move os slot x y pressure r).0
perform os (up slot) r = (send_up os slot r).0
perform os (wait ms) r = send_wait ms r

unfoldable pub perform_all : Platform → List Call → Receiver → Receiver
unfolding perform
perform_all os [] r = r
perform_all os (c ∷ cs) r = perform_all os cs (perform os c r)

-- struct TouchInfo.
pub record TouchInfo : Type 0 where
  pub version : ℕ
  pub max_contacts : ℕ
  pub max_x : ℕ
  pub max_y : ℕ
  pub max_pressure : ℕ
  pub pid : ℤ

-- `none` for a null pointer, which gives false and no information; `pid` is what getpid() returns.
unfoldable pub get_touch_info : ℤ → Option TouchInfo → Option TouchInfo × Bool
get_touch_info pid none = (none, false)
get_touch_info pid (some info) = (
  some (record {
    version = 1;
    max_contacts = max_slot;
    max_x = max_position_x;
    max_y = max_position_y;
    max_pressure = max_pressure;
    pid = pid;
  }),
  true,
)
