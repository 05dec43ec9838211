-- ===== src/Input/Touch/Slots.antt =====
-- The contact table and `mEnabledSlots` of source/virtual_input_receiver.cc.
use host_camera_server.Base.{
  ℕ, zero, suc, ◌+◌, ◌≤◌, ◌<◌, ◌≡◌, refl, inl, inr, List, [], ◌∷◌, Bool, true, false, ℤ, arith, ltb,
  leb, length, set, length-set, Bool-cases, pattern32,
}
use host_camera_server.Input.Device.{Platform, Contact, Receiver, max_slot, create_touch_device}
use host_camera_server.Input.Touch.{
  contact, disable_all, send_reset, make_room, enable, send_position, announce, send_down, disable,
  send_up, send_move, Call, commit, reset, down, move, up, wait, perform, perform_all,
}

abbrev pub weight : Bool → ℕ
weight true = 1
weight false = 0

-- How many contacts are enabled.
abbrev pub enabled_count : List Contact → ℕ
enabled_count [] = 0
enabled_count (c ∷ cs) = weight c.enabled + enabled_count cs

enabled_count-set :
    (cs : List Contact) (i : ℕ) (c : Contact)
    → i < length cs
    → enabled_count (set cs i c) + weight (contact cs i).enabled
      ≡ enabled_count cs + weight c.enabled
enabled_count-set [] i c h = elim h [ ]
enabled_count-set (x ∷ cs) zero c h = omega arith
enabled_count-set (x ∷ cs) (suc i) c h = omega (arith, enabled_count-set cs i c)

length-disable_all : (cs : List Contact) → length (disable_all cs).0 ≡ length cs
unfolding disable_all
length-disable_all [] = refl
length-disable_all (c ∷ cs) = omega (arith, length-disable_all cs)

enabled_count-disable_all : (cs : List Contact) → enabled_count (disable_all cs).0 ≡ 0
unfolding disable_all
enabled_count-disable_all [] = refl
enabled_count-disable_all (c ∷ cs) = omega (arith, enabled_count-disable_all cs)

disable_all-report : (cs : List Contact) → (disable_all cs).1 ≡ ltb 0 (enabled_count cs)
unfolding disable_all
disable_all-report [] = refl
disable_all-report (c ∷ cs) = ground (arith, disable_all-report cs)

-- What holds after at most `n` calls.
pub record Covered (n : ℕ) (r : Receiver) : Type 0 where
  pub nine : length r.contacts ≡ 9
  pub covered : enabled_count r.contacts ≤ r.enabled_slots
  pub bounded : r.enabled_slots ≤ n

module _ (os : Platform) where
  send_reset-Covered : (n : ℕ) (r : Receiver) → Covered n r → Covered n (send_reset os r).0
  unfolding send_reset
  send_reset-Covered n r h =
      ground (arith, length-disable_all r.contacts, enabled_count-disable_all r.contacts)

  make_room-Covered : (n slot : ℕ) (r : Receiver) → Covered n r → Covered n (make_room os slot r)
  unfolding make_room
  make_room-Covered n slot r h = ground (arith, send_reset-Covered n r h)

  announce-Covered :
      (n : ℕ) (slot : ℤ) (r : Receiver) → Covered n r → Covered n (announce os slot r)
  unfolding announce
  announce-Covered n slot r h = ground arith

  send_position-Covered :
      (n : ℕ) (x y p : ℤ) (r : Receiver) → Covered n r → Covered n (send_position os x y p r)
  unfolding send_position
  send_position-Covered n x y p r h = ground arith

enable-Covered :
    (n slot : ℕ) (r : Receiver)
    → slot < 9
    → n < 4294967295
    → Covered n r
    → Covered (n + 1) (enable slot r)
unfolding enable
enable-Covered n slot r h m v =
    let c : Contact = record { enabled = true; tracking_id = r.tracking_id } in
    ground (arith, length-set r.contacts slot c, enabled_count-set r.contacts slot c)

disable-Covered :
    (n slot : ℕ) (r : Receiver)
    → slot < 9
    → (contact r.contacts slot).enabled ≡ true
    → Covered n r
    → Covered n (disable slot r)
unfolding disable
disable-Covered n slot r h e v =
    let c : Contact = record (contact r.contacts slot) { enabled = false } in
    ground (arith, length-set r.contacts slot c, enabled_count-set r.contacts slot c)

Covered-weaken : (n : ℕ) (r : Receiver) → Covered n r → Covered (n + 1) r
Covered-weaken n r v = omega arith

module _ (os : Platform) (n : ℕ) (small : n < 4294967295) where
  send_down-Covered :
      (slot x y p : ℤ) (r : Receiver) → Covered n r → Covered (n + 1) (send_down os slot x y p r).0
  unfolding send_down
  send_down-Covered slot x y p r v = elim (Bool-cases (leb max_slot (pattern32 slot))) [
    | inl out ↦ rw out (Covered-weaken n r v)
    | inr fits ↦ rw fits (
        send_position-Covered os (n + 1) x y p _ (
          announce-Covered os (n + 1) slot _ (
            enable-Covered n (pattern32 slot) _ (ground arith) small
              (make_room-Covered os n (pattern32 slot) r v))))
  ]

  send_up-Covered : (slot : ℤ) (r : Receiver) → Covered n r → Covered n (send_up os slot r).0
  unfolding send_up
  send_up-Covered slot r v = ground (arith, disable-Covered n (pattern32 slot) r)

  send_move-Covered :
      (slot x y p : ℤ) (r : Receiver) → Covered n r → Covered n (send_move os slot x y p r).0
  unfolding send_move
  send_move-Covered slot x y p r v = ground arith

  perform-Covered : (c : Call) (r : Receiver) → Covered n r → Covered (n + 1) (perform os c r)
  unfolding perform
  perform-Covered commit r v = omega arith
  perform-Covered reset r v = Covered-weaken n _ (send_reset-Covered os n r v)
  perform-Covered (down slot x y p) r v = send_down-Covered slot x y p r v
  perform-Covered (move slot x y p) r v = Covered-weaken n _ (send_move-Covered slot x y p r v)
  perform-Covered (up slot) r v = Covered-weaken n _ (send_up-Covered slot r v)
  perform-Covered (wait ms) r v = omega arith

perform_all-Covered_from :
    (os : Platform) (cs : List Call) (n : ℕ) (r : Receiver)
    → n + length cs < 4294967296
    → Covered n r
    → Covered (n + length cs) (perform_all os cs r)
unfolding perform_all
perform_all-Covered_from os [] n r h v = omega arith
perform_all-Covered_from os (c ∷ cs) n r h v =
    let rest =
      perform_all-Covered_from os cs (n + 1) (perform os c r) (omega arith)
        (perform-Covered os n (omega arith) c r v) in
    omega (arith, rest)

-- From a new receiver, after any sequence of fewer than 2^32 touch calls: the contact table still
-- has its nine entries, `mEnabledSlots` is at least the number of enabled contacts, and it is at
-- most the number of calls made, so that it never wraps.
pub perform_all-Covered :
    (os : Platform) (fd : ℤ) (cs : List Call)
    → length cs < 4294967296
    → Covered (length cs) (perform_all os cs (create_touch_device fd).0)
unfolding create_touch_device
perform_all-Covered os fd cs h =
    let fresh : Receiver = (create_touch_device fd).0 in
    let after = perform_all-Covered_from os cs 0 fresh (omega arith) (omega arith) in
    omega (arith, after)

-- The counter is the number of enabled contacts.
pub record IsExact (r : Receiver) : Type 0 where
  pub nine : length r.contacts ≡ 9
  pub exact : r.enabled_slots ≡ enabled_count r.contacts

-- A call that triggers no reset: no `reset`, and no `down` on a contact that is down.
abbrev pub IsUndisturbed : Call → Receiver → Type 0
IsUndisturbed commit r = Unit {0}
IsUndisturbed reset r = ⊥
IsUndisturbed (down slot x y p) r = (contact r.contacts (pattern32 slot)).enabled ≡ false
IsUndisturbed (move slot x y p) r = Unit {0}
IsUndisturbed (up slot) r = Unit {0}
IsUndisturbed (wait ms) r = Unit {0}

enabled_count-le : (cs : List Contact) → enabled_count cs ≤ length cs
enabled_count-le [] = omega arith
enabled_count-le (c ∷ cs) = ground (arith, enabled_count-le cs)

-- A free contact leaves room for one more.
pub free_room :
    (cs : List Contact) (i : ℕ)
    → i < length cs
    → (contact cs i).enabled ≡ false
    → enabled_count cs < length cs
free_room [] i h e = elim h [ ]
free_room (c ∷ cs) zero h e = ground (arith, enabled_count-le cs)
free_room (c ∷ cs) (suc i) h e = ground (arith, free_room cs i (omega arith) e)

pub make_room-free :
    (os : Platform) (slot : ℕ) (r : Receiver)
    → slot < 9
    → (contact r.contacts slot).enabled ≡ false
    → IsExact r
    → make_room os slot r ≡ r
unfolding make_room
make_room-free os slot r h e v = ground (arith, free_room r.contacts slot)

pub enable-IsExact :
    (slot : ℕ) (r : Receiver)
    → slot < 9
    → (contact r.contacts slot).enabled ≡ false
    → IsExact r
    → IsExact (enable slot r)
unfolding enable
enable-IsExact slot r h e v =
    let c : Contact = record { enabled = true; tracking_id = r.tracking_id } in
    ground (
      arith,
      length-set r.contacts slot c,
      enabled_count-set r.contacts slot c,
      free_room r.contacts slot,
    )

pub disable-IsExact :
    (slot : ℕ) (r : Receiver)
    → slot < 9
    → (contact r.contacts slot).enabled ≡ true
    → IsExact r
    → IsExact (disable slot r)
unfolding disable
disable-IsExact slot r h e v =
    let c : Contact = record (contact r.contacts slot) { enabled = false } in
    ground (arith, length-set r.contacts slot c, enabled_count-set r.contacts slot c)

send_down-IsExact :
    (os : Platform) (slot x y p : ℤ) (r : Receiver)
    → (contact r.contacts (pattern32 slot)).enabled ≡ false
    → IsExact r
    → IsExact (send_down os slot x y p r).0
unfolding send_down announce send_position
send_down-IsExact os slot x y p r e v = elim (Bool-cases (leb max_slot (pattern32 slot))) [
  | inl out ↦ rw out v
  | inr fits ↦
      let small : pattern32 slot < 9 = ground arith in
      rw (fits, make_room-free os (pattern32 slot) r small e v)
        (ground (arith, enable-IsExact (pattern32 slot) r small e v))
]

-- Without a reset the counter stays the number of enabled contacts.
pub perform-IsExact :
    (os : Platform) (c : Call) (r : Receiver)
    → IsUndisturbed c r
    → IsExact r
    → IsExact (perform os c r)
unfolding perform send_up send_move
perform-IsExact os commit r u v = omega arith
perform-IsExact os reset r u v = absurd u
perform-IsExact os (down slot x y p) r u v = send_down-IsExact os slot x y p r u v
perform-IsExact os (move slot x y p) r u v = ground arith
perform-IsExact os (up slot) r u v = ground (arith, disable-IsExact (pattern32 slot) r)
perform-IsExact os (wait ms) r u v = omega arith

-- A reset frees every contact and leaves the counter as it was.
pub send_reset-counts :
    (os : Platform) (r : Receiver)
    → (enabled_count (send_reset os r).0.contacts ≡ 0)
      × ((send_reset os r).0.enabled_slots ≡ r.enabled_slots)
      × (length (send_reset os r).0.contacts ≡ length r.contacts)
unfolding send_reset
send_reset-counts os r =
    ground (arith, enabled_count-disable_all r.contacts, length-disable_all r.contacts)
