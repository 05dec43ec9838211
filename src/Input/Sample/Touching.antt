-- ===== src/Input/Sample/Touching.antt =====
-- TestTouch of host_camera_service/virtual_input_receiver_sample.cc, run.
use host_camera_server.Base.{
  ℕ, ◌≡◌, ◌≢◌, refl, sym, ap, ◌∙◌, inl, inr, List, [], ◌∷◌, true, false, pos, arith, ◌==◌,
  Bool-cases, length, ltb, subst, replicate, some,
}
use host_camera_server.Input.Device.{
  Platform, Receiver, max_slot, free_contact, attempted, send_commit, send_wait,
}
use host_camera_server.Input.Reader.{held, IsKeyDistinct}
use host_camera_server.Input.Touch.{
  Call, commit, reset, down, move, up, wait, perform, perform_all, send_reset, send_position,
  announce,
}
use host_camera_server.Input.Touch.Slots.{IsExact, enabled_count}
use host_camera_server.Input.Touch.Button.{AreUndisturbed, Follows, perform_all-Follows_from}
use host_camera_server.Input.Scan.{find_newline, substr, scan_ints, after_char}
use host_camera_server.Input.Command.{
  next_begin, on_input_message, process_one_command, down_command, down_with, move_command,
  move_with, up_command, up_with,
}
use host_camera_server.Input.Sample.{take_step, run_script}
use host_camera_server.Input.Sample.Steps.{Step}
use host_camera_server.Input.Sample.Buttons.{test_touch}

abbrev drag : ℕ → List (List Call) → List (List Call)
drag y rest = (move (pos 0) (pos 16384) (pos y) (pos 200) ∷ commit ∷ []) ∷ (wait 3 ∷ []) ∷ rest

-- The calls that each step of the script comes to.
abbrev touch_calls : List (List Call)
touch_calls =
    (down (pos 0) (pos 16384) (pos 16384) (pos 200) ∷ commit ∷ [])
    ∷ (wait 3 ∷ [])
    ∷ drag 15203 (
        drag 14022 (
          drag 13841 (
            drag 12660 (
              drag 11479 (
                drag 10298 (
                  drag 9117 (
                    drag 8936
                      (drag 7755 (drag 6574 (drag 5479 ((up (pos 0) ∷ commit ∷ []) ∷ [])))))))))))

abbrev Performs : Platform → List Step → List (List Call) → Type 0
Performs os [] [] = Unit {0}
Performs os (x ∷ xs) (cs ∷ css) =
    ((r : Receiver) → take_step os x r ≡ some (perform_all os cs r)) × Performs os xs css
Performs os _ _ = ⊥

abbrev perform_each : Platform → List (List Call) → Receiver → Receiver
perform_each os [] r = r
perform_each os (cs ∷ css) r = perform_each os css (perform_all os cs r)

run_script-Performs :
    (os : Platform) (xs : List Step) (css : List (List Call)) (r : Receiver)
    → Performs os xs css
    → run_script os xs r ≡ some (perform_each os css r)
unfolding run_script
run_script-Performs os [] [] r h = refl
run_script-Performs os (x ∷ xs) (cs ∷ css) r h =
    rw (run_script, h.0 r) (run_script-Performs os xs css (perform_all os cs r) h.1)
run_script-Performs os [] (cs ∷ css) r h = absurd h
run_script-Performs os (x ∷ xs) [] r h = absurd h

test_touch-Performs : (os : Platform) → Performs os test_touch touch_calls
unfolding take_step test_touch on_input_message find_newline next_begin perform_all
    process_one_command substr down_command down_with scan_ints after_char move_command move_with
    up_command up_with
test_touch-Performs os = (
  λ r. refl,
  (
    λ r. refl,
    (
      λ r. refl,
      (
        λ r. refl,
        (
          λ r. refl,
          (
            λ r. refl,
            (
              λ r. refl,
              (
                λ r. refl,
                (
                  λ r. refl,
                  (
                    λ r. refl,
                    (
                      λ r. refl,
                      (
                        λ r. refl,
                        (
                          λ r. refl,
                          (
                            λ r. refl,
                            (
                              λ r. refl,
                              (
                                λ r. refl,
                                (
                                  λ r. refl,
                                  (
                                    λ r. refl,
                                    (
                                      λ r. refl,
                                      (
                                        λ r. refl,
                                        (
                                          λ r. refl,
                                          (λ r. refl, (λ r. refl, (λ r. refl, (λ r. refl, tt)))),
                                        ),
                                      ),
                                    ),
                                  ),
                                ),
                              ),
                            ),
                          ),
                        ),
                      ),
                    ),
                  ),
                ),
              ),
            ),
          ),
        ),
      ),
    ),
  ),
)

module _ (os : Platform) (apart : IsKeyDistinct os) (k : ℕ) (other : os.btn_touch ≢ k) where
  perform-held :
      (c : Call) (r : Receiver)
      → held os k (attempted (perform os c r).effects) ≡ held os k (attempted r.effects)
  unfolding perform held attempted send_commit send_wait send_reset send_position announce
  perform-held commit r = ground arith
  perform-held reset r = ground arith
  perform-held (down slot x y p) r = ground arith
  perform-held (move slot x y p) r = ground arith
  perform-held (up slot) r = ground arith
  perform-held (wait ms) r = ground arith

  perform_all-held :
      (cs : List Call) (r : Receiver)
      → held os k (attempted (perform_all os cs r).effects) ≡ held os k (attempted r.effects)
  unfolding perform_all
  perform_all-held [] r = refl
  perform_all-held (c ∷ cs) r = perform_all-held cs (perform os c r) ∙ perform-held c r

  perform_each-held :
      (css : List (List Call)) (r : Receiver)
      → held os k (attempted (perform_each os css r).effects) ≡ held os k (attempted r.effects)
  perform_each-held [] r = refl
  perform_each-held (cs ∷ css) r =
      perform_each-held css (perform_all os cs r) ∙ perform_all-held cs r

abbrev AreEach : Platform → List (List Call) → Receiver → Type 0
AreEach os [] r = Unit {0}
AreEach os (cs ∷ css) r = AreUndisturbed os cs r × AreEach os css (perform_all os cs r)

perform_each-Follows :
    (os : Platform) (apart : IsKeyDistinct os) (css : List (List Call)) (r : Receiver)
    → AreEach os css r
    → IsExact r
    → Follows os r
    → IsExact (perform_each os css r) × Follows os (perform_each os css r)
perform_each-Follows os apart [] r u v a = (v, a)
perform_each-Follows os apart (cs ∷ css) r u v a =
    let (v', a') = perform_all-Follows_from os apart cs r u.0 v a in
    perform_each-Follows os apart css (perform_all os cs r) u.1 v' a'

abbrev fresh : Receiver → Receiver
fresh r = record r { contacts = replicate max_slot free_contact; enabled_slots = 0 }

calls-AreEach : (os : Platform) (r : Receiver) → AreEach os touch_calls (fresh r)
unfolding perform_all perform
calls-AreEach os r = ground arith

calls-release :
    (os : Platform) (r : Receiver)
    → enabled_count (perform_each os touch_calls (fresh r)).contacts ≡ 0
unfolding perform_all perform
calls-release os r = refl

fresh-same :
    (r : Receiver)
    → r.contacts ≡ replicate max_slot free_contact
    → r.enabled_slots ≡ 0
    → fresh r ≡ r
fresh-same r free counted = λ i. record r { contacts = sym free i; enabled_slots = sym counted i }

same_of_eq : (a b : ℕ) → a == b ≡ true → a ≡ b
same_of_eq a b h = ground arith

quiet_after :
    (os : Platform) (r : Receiver)
    → Follows os r
    → enabled_count r.contacts ≡ 0
    → ((k : ℕ) → os.btn_touch ≢ k → held os k (attempted r.effects) ≡ false)
    → (k : ℕ) → held os k (attempted r.effects) ≡ false
quiet_after os r agrees empty others k = elim (Bool-cases (os.btn_touch == k)) [
  | inl e ↦ rw (sym (same_of_eq os.btn_touch k e), agrees, empty) refl
  | inr e ↦ others k (ground (arith, e))
]

-- What TestTouch does from no contact and no key down: the button goes down and up again.
pub test_touch-held :
    (os : Platform) (r : Receiver)
    → IsKeyDistinct os
    → r.contacts ≡ replicate max_slot free_contact
    → r.enabled_slots ≡ 0
    → ((k : ℕ) → held os k (attempted r.effects) ≡ false)
    → (r' : Receiver) × (run_script os test_touch r ≡ some r')
      × (r'.enabled_slots ≡ 0)
      × ((k : ℕ) → held os k (attempted r'.effects) ≡ false)
test_touch-held os r apart free counted quiet =
    let r' = perform_each os touch_calls r in
    let whole = fresh-same r free counted in
    let (exact, agrees) =
      perform_each-Follows os apart touch_calls r
        (subst (λ q. AreEach os touch_calls q) whole (calls-AreEach os r))
        (record { nine = ap length free; exact = counted ∙ sym (ap enabled_count free) })
        (quiet os.btn_touch ∙ sym (ap (λ cs. ltb 0 (enabled_count cs)) free)) in
    let empty =
      subst (λ q. enabled_count (perform_each os touch_calls q).contacts ≡ 0) whole
        (calls-release os r) in
    (
      r',
      run_script-Performs os test_touch touch_calls r (test_touch-Performs os),
      exact.exact ∙ empty,
      quiet_after os r' agrees empty
          (λ k other. perform_each-held os apart k other touch_calls r ∙ quiet k),
    )
