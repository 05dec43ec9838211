-- ===== src/Input/Touch/Button.antt =====
-- The touch button (BTN_TOUCH) as a reader of the pipe sees it.
use host_camera_server.Base.{
  ℕ, ◌<◌, ◌≡◌, refl, inl, inr, List, [], ◌∷◌, true, false, ap, sym, ◌∙◌, ℤ, arith, ltb, leb, ◌==◌,
  Bool-cases, if◌then◌else◌, pattern32,
}
use host_camera_server.Input.Device.{
  Platform, Receiver, create_touch_device, max_slot, send_commit, send_wait, attempted, sent,
  all_written, sent-attempted,
}
use host_camera_server.Input.Reader.{held, IsKeyDistinct}
use host_camera_server.Input.Touch.{
  contact, send_reset, enable, send_position, announce, send_down, send_up, send_move, Call, commit,
  reset, down, move, up, wait, perform, perform_all,
}
use host_camera_server.Input.Touch.Slots.{
  enabled_count, IsExact, IsUndisturbed, perform-IsExact, enable-IsExact, disable-IsExact,
  make_room-free, free_room, send_reset-counts,
}

-- If all writes succeed, the button is down exactly while a contact is enabled.
abbrev pub Follows : Platform → Receiver → Type 0
Follows os r = held os os.btn_touch (attempted r.effects) ≡ ltb 0 (enabled_count r.contacts)

-- The reader sees the button down exactly while a contact is enabled.
abbrev pub Agrees : Platform → Receiver → Type 0
Agrees os r = held os os.btn_touch (sent r.effects) ≡ ltb 0 (enabled_count r.contacts)

module _ (os : Platform) (apart : IsKeyDistinct os) where
  send_position-held :
      (x y p : ℤ) (r : Receiver)
      → held os os.btn_touch (attempted (send_position os x y p r).effects)
        ≡ held os os.btn_touch (attempted r.effects)
  unfolding send_position held attempted
  send_position-held x y p r = ground arith

  announce-held :
      (slot : ℤ) (r : Receiver)
      → held os os.btn_touch (attempted (announce os slot r).effects)
        ≡ (if r.enabled_slots == 1 then true else held os os.btn_touch (attempted r.effects))
  unfolding announce held attempted
  announce-held slot r = ground arith

  announce-contacts : (slot : ℤ) (r : Receiver) → (announce os slot r).contacts ≡ r.contacts
  unfolding announce
  announce-contacts slot r = ground arith

  enable-pressed :
      (slot : ℕ) (r : Receiver)
      → slot < 9
      → (contact r.contacts slot).enabled ≡ false
      → IsExact r
      → Follows os r
      → (if (enable slot r).enabled_slots == 1
          then true
          else held os os.btn_touch (attempted (enable slot r).effects))
        ≡ ltb 0 (enabled_count (enable slot r).contacts)
  unfolding enable
  enable-pressed slot r h e v a =
      ground (arith, enable-IsExact slot r h e v, free_room r.contacts slot)

  send_down-Follows :
      (slot x y p : ℤ) (r : Receiver)
      → (contact r.contacts (pattern32 slot)).enabled ≡ false
      → IsExact r
      → Follows os r
      → Follows os (send_down os slot x y p r).0
  unfolding send_down send_position
  send_down-Follows slot x y p r e v a = elim (Bool-cases (leb max_slot (pattern32 slot))) [
    | inl out ↦ rw out a
    | inr fits ↦
        let small : pattern32 slot < 9 = ground arith in
        rw (fits, make_room-free os (pattern32 slot) r small e v)
          (send_position-held x y p (announce os slot (enable (pattern32 slot) r))
            ∙ announce-held slot (enable (pattern32 slot) r)
            ∙ enable-pressed (pattern32 slot) r small e v a
            ∙ ap (λ cs. ltb 0 (enabled_count cs))
                (sym (announce-contacts slot (enable (pattern32 slot) r))))
  ]

  send_up-Follows :
      (slot : ℤ) (r : Receiver) → IsExact r → Follows os r → Follows os (send_up os slot r).0
  unfolding send_up held attempted
  send_up-Follows slot r v a = ground (arith, disable-IsExact (pattern32 slot) r)

  send_move-Follows :
      (slot x y p : ℤ) (r : Receiver) → Follows os r → Follows os (send_move os slot x y p r).0
  unfolding send_move held attempted
  send_move-Follows slot x y p r a = ground arith

  perform-Follows :
      (c : Call) (r : Receiver)
      → IsUndisturbed c r
      → IsExact r
      → Follows os r
      → Follows os (perform os c r)
  unfolding perform
  perform-Follows commit r u v a = unfold send_commit held attempted in ground arith
  perform-Follows reset r u v a = absurd u
  perform-Follows (down slot x y p) r u v a = send_down-Follows slot x y p r u v a
  perform-Follows (move slot x y p) r u v a = send_move-Follows slot x y p r a
  perform-Follows (up slot) r u v a = send_up-Follows slot r v a
  perform-Follows (wait ms) r u v a = unfold send_wait attempted in a

-- Each call of the sequence is undisturbed in the state that the calls before it leave.
abbrev pub AreUndisturbed : Platform → List Call → Receiver → Type 0
AreUndisturbed os [] r = Unit {0}
AreUndisturbed os (c ∷ cs) r = IsUndisturbed c r × AreUndisturbed os cs (perform os c r)

pub perform_all-Follows_from :
    (os : Platform) (apart : IsKeyDistinct os) (cs : List Call) (r : Receiver)
    → AreUndisturbed os cs r
    → IsExact r
    → Follows os r
    → IsExact (perform_all os cs r) × Follows os (perform_all os cs r)
unfolding perform_all
perform_all-Follows_from os apart [] r u v a = (v, a)
perform_all-Follows_from os apart (c ∷ cs) r u v a =
    perform_all-Follows_from os apart cs (perform os c r) u.1 (perform-IsExact os c r u.0 v)
      (perform-Follows os apart c r u.0 v a)

-- If the event types differ from EV_KEY, then from a new receiver, after any sequence of touch calls
-- in which no `reset` occurs, no `down` names a contact that is already down, and no write fails,
-- `mEnabledSlots` is the number of enabled contacts and a reader of the pipe sees the touch button
-- down exactly while a contact is enabled.
pub perform_all-Agrees :
    (os : Platform) (apart : IsKeyDistinct os) (fd : ℤ) (cs : List Call)
    → AreUndisturbed os cs (create_touch_device fd).0
    → all_written (perform_all os cs (create_touch_device fd).0).effects ≡ true
    → IsExact (perform_all os cs (create_touch_device fd).0)
      × Agrees os (perform_all os cs (create_touch_device fd).0)
unfolding create_touch_device
perform_all-Agrees os apart fd cs u w =
    let r = (create_touch_device fd).0 in
    let (v, a) =
      perform_all-Follows_from os apart cs r u (omega arith) (unfold held attempted in refl) in
    (v, rw (sent-attempted (perform_all os cs r).effects w) a)

module _ (os : Platform) (apart : IsKeyDistinct os) where
  send_reset-held :
      (r : Receiver)
      → held os os.btn_touch (sent (send_reset os r).0.effects)
        ≡ held os os.btn_touch (sent r.effects)
  unfolding send_reset held sent
  send_reset-held r = ground arith

  -- SendReset does not reset `mEnabledSlots`. If the event types differ from EV_KEY, the counter is
  -- exact, what a reader of the pipe has got agrees, and some contact is enabled, then after a reset,
  -- whether its write succeeds or not, no contact is enabled while the reader still sees the button
  -- down and the counter is not exact.
  pub send_reset-stuck_button :
      (r : Receiver)
      → IsExact r
      → Agrees os r
      → 0 < enabled_count r.contacts
      → (enabled_count (send_reset os r).0.contacts ≡ 0)
        × (held os os.btn_touch (sent (send_reset os r).0.effects) ≡ true)
        × (¬ IsExact (send_reset os r).0)
  send_reset-stuck_button r v a h =
      let (none_left, same, _) = send_reset-counts os r in
      (none_left, ground (arith, send_reset-held r), λ e. omega arith)
