-- ===== src/Input/Touch/Mirror.antt =====
-- The contacts as a program that reads the pipe sees them: the multi-touch protocol with slots.
use host_camera_server.Base.{
  ℕ, zero, suc, ◌+◌, ◌≤◌, ◌<◌, ◌≡◌, ◌≢◌, refl, sym, ap, ◌∙◌, inl, inr, List, [], ◌∷◌, map, true,
  false, ◌&&◌, ℤ, pos, is_neg, Option, none, some, arith, leb, ◌==◌, length, set, get_or-set_self,
  replicate, Bool-cases, if◌then◌else◌, pattern32,
}
use host_camera_server.Input.Device.{
  Platform, Contact, Receiver, create_touch_device, max_slot, send_commit, send_wait, attempted,
  sent, all_written, sent-attempted,
}
use host_camera_server.Input.Touch.{
  contact, enable, disable, make_room, send_reset, send_position, announce, press_first,
  release_last, send_down, send_up, send_move, Call, commit, reset, down, move, up, wait, perform,
  perform_all,
}
use host_camera_server.Input.Touch.Slots.{IsExact, IsUndisturbed, perform-IsExact, make_room-free}
use host_camera_server.Input.Touch.Button.{AreUndisturbed}

-- The slot that is addressed, and the tracking id of the contact in each slot.
pub record Screen : Type 0 where
  pub slot : ℕ
  pub ids : List (Option ℤ)

-- A negative tracking id ends the contact of the slot.
abbrev pub tracked : ℤ → Option ℤ
tracked v = if is_neg v then none else some v

abbrev pub blank : Screen
blank = record { slot = 0; ids = replicate max_slot none }

-- What one event does to the reader's screen.
unfoldable pub observe : Platform → ℕ × ℕ × ℤ → Screen → Screen
observe os (t, c, v) s =
    if t == os.ev_abs && c == os.abs_mt_slot
    then record s { slot = pattern32 v }
    else if t == os.ev_abs && c == os.abs_mt_tracking_id
    then record s { ids = set s.ids s.slot (tracked v) }
    else s

-- The screen after the events, newest first.
unfoldable pub screen : Platform → List (ℕ × ℕ × ℤ) → Screen
screen os [] = blank
screen os (e ∷ es) = observe os e (screen os es)

-- The numbers by which the reader tells the events apart.
pub record IsMtDistinct (os : Platform) : Type 0 where
  pub key_apart : os.ev_key ≢ os.ev_abs
  pub syn_apart : os.ev_syn ≢ os.ev_abs
  pub id_apart : os.abs_mt_tracking_id ≢ os.abs_mt_slot
  pub major_apart :
      (os.abs_mt_touch_major ≢ os.abs_mt_slot) × (os.abs_mt_touch_major ≢ os.abs_mt_tracking_id)
  pub width_apart :
      (os.abs_mt_width_major ≢ os.abs_mt_slot) × (os.abs_mt_width_major ≢ os.abs_mt_tracking_id)
  pub x_apart :
      (os.abs_mt_position_x ≢ os.abs_mt_slot) × (os.abs_mt_position_x ≢ os.abs_mt_tracking_id)
  pub y_apart :
      (os.abs_mt_position_y ≢ os.abs_mt_slot) × (os.abs_mt_position_y ≢ os.abs_mt_tracking_id)
  pub pressure_apart :
      (os.abs_mt_pressure ≢ os.abs_mt_slot) × (os.abs_mt_pressure ≢ os.abs_mt_tracking_id)

-- What a contact of the table should look like to the reader.
abbrev pub shown : Contact → Option ℤ
shown c = if c.enabled then some (pos c.tracking_id) else none

map-set :
    (cs : List Contact) (i : ℕ) (c : Contact)
    → map shown (set cs i c) ≡ set (map shown cs) i (shown c)
map-set [] i c = refl
map-set (x ∷ cs) zero c = refl
map-set (x ∷ cs) (suc i) c = ap (λ xs. shown x ∷ xs) (map-set cs i c)

-- If all writes succeed, the reader's screen shows the table.
abbrev Shows : Platform → Receiver → Type 0
Shows os r = (screen os (attempted r.effects)).ids ≡ map shown r.contacts

-- The reader's screen shows the table.
abbrev pub Mirrors : Platform → Receiver → Type 0
Mirrors os r = (screen os (sent r.effects)).ids ≡ map shown r.contacts

module _ (os : Platform) (apart : IsMtDistinct os) where
  send_position-screen :
      (x y p : ℤ) (r : Receiver)
      → screen os (attempted (send_position os x y p r).effects) ≡ screen os (attempted r.effects)
  unfolding send_position screen observe attempted
  send_position-screen x y p r = ground arith

  press_first-screen :
      (r : Receiver)
      → screen os (attempted (press_first os r).effects) ≡ screen os (attempted r.effects)
  unfolding press_first screen observe attempted
  press_first-screen r = ground arith

  release_last-screen :
      (r : Receiver)
      → screen os (attempted (release_last os r).effects) ≡ screen os (attempted r.effects)
  unfolding release_last screen observe attempted
  release_last-screen r = ground arith

  announce-screen :
      (slot : ℤ) (r : Receiver)
      → (contact r.contacts (pattern32 slot)).tracking_id < 2147483648
      → (screen os (attempted (announce os slot r).effects)).ids
        ≡ set
            (screen os (attempted r.effects)).ids
            (pattern32 slot)
            (some (pos (contact r.contacts (pattern32 slot)).tracking_id))
  unfolding announce screen observe attempted
  announce-screen slot r small = ground arith

  announce-contacts : (slot : ℤ) (r : Receiver) → (announce os slot r).contacts ≡ r.contacts
  unfolding announce
  announce-contacts slot r = ground arith

  enable-contact :
      (n : ℕ) (r : Receiver)
      → n < 9
      → IsExact r
      → contact (enable n r).contacts n ≡ record { enabled = true; tracking_id = r.tracking_id }
  unfolding enable
  enable-contact n r low v = get_or-set_self r.contacts n _ _ (omega (arith, v.nine))

  enable-shown :
      (n : ℕ) (r : Receiver)
      → n < 9
      → IsExact r
      → Shows os r
      → set
          (screen os (attempted (enable n r).effects)).ids
          n
          (some (pos (contact (enable n r).contacts n).tracking_id))
        ≡ map shown (enable n r).contacts
  unfolding enable
  enable-shown n r low v a = rw (enable-contact n r low v, a) (sym (map-set r.contacts n _))

  send_down-Shows :
      (slot x y p : ℤ) (r : Receiver)
      → (contact r.contacts (pattern32 slot)).enabled ≡ false
      → r.tracking_id < 2147483648
      → IsExact r
      → Shows os r
      → Shows os (send_down os slot x y p r).0
  unfolding send_down
  send_down-Shows slot x y p r e small v a = elim (Bool-cases (leb max_slot (pattern32 slot))) [
    | inl out ↦ rw out a
    | inr fits ↦
        let n = pattern32 slot in
        let low : n < 9 = ground arith in
        rw (fits, make_room-free os n r low e v)
          (ap (λ (s : Screen). s.ids) (send_position-screen x y p (announce os slot (enable n r)))
            ∙ announce-screen slot (enable n r) (rw (enable-contact n r low v) small)
            ∙ enable-shown n r low v a
            ∙ ap (map shown) (sym (announce-contacts slot (enable n r))))
  ]

  send_up-Shows : (slot : ℤ) (r : Receiver) → Shows os r → Shows os (send_up os slot r).0
  unfolding send_up
  send_up-Shows slot r a =
      let c : Contact = record (contact r.contacts (pattern32 slot)) { enabled = false } in
      unfold screen observe attempted disable in
      ground (arith, map-set r.contacts (pattern32 slot) c)

  send_move-Shows :
      (slot x y p : ℤ) (r : Receiver) → Shows os r → Shows os (send_move os slot x y p r).0
  unfolding send_move
  send_move-Shows slot x y p r a = unfold send_position screen observe attempted in ground arith

  perform-Shows :
      (c : Call) (r : Receiver)
      → IsUndisturbed c r
      → r.tracking_id < 2147483648
      → IsExact r
      → Shows os r
      → Shows os (perform os c r)
  unfolding perform
  perform-Shows commit r u small v a = unfold send_commit screen observe attempted in ground arith
  perform-Shows reset r u small v a = absurd u
  perform-Shows (down slot x y p) r u small v a = send_down-Shows slot x y p r u small v a
  perform-Shows (move slot x y p) r u small v a = send_move-Shows slot x y p r a
  perform-Shows (up slot) r u small v a = send_up-Shows slot r a
  perform-Shows (wait ms) r u small v a = unfold send_wait attempted in a

perform-tracking_id :
    (os : Platform) (c : Call) (r : Receiver) → (perform os c r).tracking_id ≤ r.tracking_id + 1
unfolding perform send_up send_move send_wait send_commit send_down make_room send_reset enable
    announce send_position
perform-tracking_id os commit r = ground arith
perform-tracking_id os reset r = unfold send_reset in ground arith
perform-tracking_id os (down slot x y p) r = ground arith
perform-tracking_id os (move slot x y p) r = ground arith
perform-tracking_id os (up slot) r = ground arith
perform-tracking_id os (wait ms) r = ground arith

perform_all-Shows_from :
    (os : Platform) (apart : IsMtDistinct os) (cs : List Call) (r : Receiver)
    → AreUndisturbed os cs r
    → r.tracking_id + length cs < 2147483648
    → IsExact r
    → Shows os r
    → Shows os (perform_all os cs r)
unfolding perform_all
perform_all-Shows_from os apart [] r u few v a = a
perform_all-Shows_from os apart (c ∷ cs) r u few v a =
    perform_all-Shows_from os apart cs (perform os c r) u.1
      (omega (arith, perform-tracking_id os c r)) (perform-IsExact os c r u.0 v)
      (perform-Shows os apart c r u.0 (omega arith) v a)

-- If the event numbers of the multi-touch protocol are distinct, then from a new receiver, after any
-- sequence of fewer than 2^31 touch calls in which no `reset` occurs, no `down` names a contact that
-- is already down, and no write fails, a reader that follows the protocol with slots sees in each
-- slot exactly what the contact table holds: no contact, or a contact with the tracking id of the
-- table.
pub perform_all-Mirrors :
    (os : Platform) (apart : IsMtDistinct os) (fd : ℤ) (cs : List Call)
    → AreUndisturbed os cs (create_touch_device fd).0
    → length cs < 2147483648
    → all_written (perform_all os cs (create_touch_device fd).0).effects ≡ true
    → Mirrors os (perform_all os cs (create_touch_device fd).0)
unfolding create_touch_device
perform_all-Mirrors os apart fd cs u few w =
    let r = (create_touch_device fd).0 in
    rw (sent-attempted (perform_all os cs r).effects w) (
      perform_all-Shows_from os apart cs r u (omega arith) (omega arith)
        (unfold screen attempted in refl))
