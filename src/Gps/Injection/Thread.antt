-- ===== src/Gps/Injection/Thread.antt =====
-- What holds of the injection thread of host_camera_service/virtual_gps_receiver_sample.cc in every
-- interleaving, and how it stops.
use host_camera_server.Base.{
  ◌≡◌, ◌≢◌, refl, ap, sym, ◌∙◌, ◌⊎◌, inl, inr, List, [], ◌∷◌, All, true, false, ℤ, is_neg, is_zero,
  arith, Bool-cases,
}
use host_camera_server.Gps.Injection.{
  Order, quits, starts, stops, others, Injector, absent, testing, injecting, gone, Session,
  at_start, create, enter_join, cmd_handler, joins_nothing, join, inject, Move, orders, joins,
  injects, step, run,
}

-- There is a thread exactly while one can be joined, the flag says so unless the handler joins it, and
-- nothing has been misused.
pub record IsSound (s : Session) : Type 0 where
  pub unmisused : s.misuses ≡ []
  pub running :
      ((s.injector ≡ absent) × (s.joinable ≡ false)) ⊎ ((s.injector ≢ absent) × (s.joinable ≡ true))
  pub flagged : s.joining ≡ false → s.injection_thread_flag ≡ s.joinable
  pub quitting :
      s.joining ≡ true
      → (s.loop_quit ≡ true) × (s.injection_thread_flag ≡ false) × (s.joinable ≡ true)

cmd_handler-IsSound :
    (ret : ℤ) (o : Order) (s : Session)
    → is_zero ret ≡ true
    → s.joining ≡ false
    → IsSound s
    → IsSound (cmd_handler ret o s)
unfolding cmd_handler create enter_join
cmd_handler-IsSound ret quits s z j i = i
cmd_handler-IsSound ret starts s z j i = ground (arith, i.flagged j)
cmd_handler-IsSound ret stops s z j i = ground (arith, i.flagged j)
cmd_handler-IsSound ret others s z j i = i

inject-IsSound :
    (ret : ℤ) (c : Injector) (s : Session) → s.injector ≡ c → IsSound s → IsSound (inject ret c s)
unfolding inject
inject-IsSound ret absent s e i = i
inject-IsSound ret gone s e i = i
inject-IsSound ret testing s e i = ground arith
inject-IsSound ret injecting s e i = ground arith

join-IsSound :
    (c : Injector) (s : Session)
    → s.injector ≡ c
    → s.joining ≡ true
    → IsSound s
    → IsSound (join c s)
unfolding join
join-IsSound gone s e j i = ground arith
join-IsSound absent s e j i = i
join-IsSound testing s e j i = i
join-IsSound injecting s e j i = i

-- If it is a command, pthread_create does not fail at it.
abbrev pub Creates : Move → Type 0
Creates (orders ret o) = is_zero ret ≡ true
Creates _ = Unit {0}

step-IsSound : (m : Move) (s : Session) → Creates m → IsSound s → IsSound (step m s)
unfolding step
step-IsSound (orders ret o) s z i = elim (Bool-cases s.joining) [
  | inl busy ↦ simp busy i
  | inr idle ↦ simp idle (cmd_handler-IsSound ret o s z idle i)
]
step-IsSound joins s z i = elim (Bool-cases s.joining) [
  | inl busy ↦ simp busy (join-IsSound s.injector s refl busy i)
  | inr idle ↦ simp idle i
]
step-IsSound (injects ret) s z i = inject-IsSound ret s.injector s refl i

run-IsSound_from : (ms : List Move) (s : Session) → All Creates ms → IsSound s → IsSound (run ms s)
unfolding run
run-IsSound_from [] s z i = i
run-IsSound_from (m ∷ ms) s z i = run-IsSound_from ms (step m s) z.1 (step-IsSound m s z.0 i)

-- In every interleaving of commands and of the injection thread in which pthread_create never fails,
-- whatever do_geo_fix returns: there is at most one injection thread, its id is never overwritten
-- while it can be joined, and only a thread that was started is joined.
pub run-IsSound : (ms : List Move) → All Creates ms → IsSound (run ms at_start)
unfolding at_start
run-IsSound ms z = run-IsSound_from ms at_start z (ground arith)

-- A move of the work thread with no stop, or any move of the injection thread.
abbrev pub IsNoStop : Move → Type 0
IsNoStop (orders ret stops) = ⊥
IsNoStop _ = Unit {0}

step-stays_gone :
    (m : Move) (s : Session)
    → IsNoStop m
    → s.injector ≡ gone
    → s.injection_thread_flag ≡ true
    → s.joining ≡ false
    → step m s ≡ s
unfolding step cmd_handler inject
step-stays_gone (orders ret quits) s n g f j = ground (arith, j)
step-stays_gone (orders ret starts) s n g f j = rw (f, j) refl
step-stays_gone (orders ret stops) s n g f j = absurd n
step-stays_gone (orders ret others) s n g f j = ground (arith, j)
step-stays_gone joins s n g f j = simp j refl
step-stays_gone (injects ret) s n g f j = simp g refl

run-same :
    (ms : List Move) (s : Session)
    → All IsNoStop ms
    → s.injector ≡ gone
    → s.injection_thread_flag ≡ true
    → s.joining ≡ false
    → run ms s ≡ s
unfolding run
run-same [] s n g f j = refl
run-same (m ∷ ms) s n g f j = rw (run, step-stays_gone m s n.0 g f j) (run-same ms s n.1 g f j)

fails :
    (ret : ℤ) (s : Session)
    → s.injector ≡ injecting
    → is_neg ret ≡ true
    → step (injects ret) s ≡ record s { injector = gone }
unfolding step inject
fails ret s e r = simp e (simp r refl)

-- Once do_geo_fix has returned an error the injection thread ends, and the flag still says that it
-- runs: until a stop comes, no command starts the thread again, and nothing at all changes.
pub run-stays_gone :
    (ms : List Move) (ret : ℤ) (s : Session)
    → All IsNoStop ms
    → s.injector ≡ injecting
    → s.injection_thread_flag ≡ true
    → s.joining ≡ false
    → is_neg ret ≡ true
    → run ms (step (injects ret) s) ≡ record s { injector = gone }
run-stays_gone ms ret s n e f j r =
    let t = record s { injector = gone } in ap (run ms) (fails ret s e r) ∙ run-same ms t n refl f j

stops_at_test :
    (ret : ℤ) (s : Session)
    → s.injector ≡ testing
    → s.loop_quit ≡ true
    → step (injects ret) s ≡ record s { injector = gone }
unfolding step inject
stops_at_test ret s e q = simp e (simp q refl)

stays : (ret : ℤ) (s : Session) → s.injector ≡ gone → step (injects ret) s ≡ s
unfolding step inject
stays ret s e = simp e refl

goes_on :
    (ret : ℤ) (s : Session)
    → s.injector ≡ injecting
    → is_neg ret ≡ false
    → step (injects ret) s ≡ record s { injector = testing }
unfolding step inject
goes_on ret s e r = simp e (simp r refl)

gone_same : (s : Session) → s.injector ≡ gone → s ≡ record s { injector = gone }
gone_same s e = λ i. record s { injector = e i }

two_steps :
    (ret ret' : ℤ) (c : Injector) (s : Session)
    → s.injector ≡ c
    → c ≢ absent
    → s.loop_quit ≡ true
    → step (injects ret') (step (injects ret) s) ≡ record s { injector = gone }
two_steps ret ret' absent s e a q = absurd (a refl)
two_steps ret ret' gone s e a q = rw (stays ret s e) (stays ret' s e ∙ gone_same s e)
two_steps ret ret' testing s e a q =
    ap (step (injects ret')) (stops_at_test ret s e q)
    ∙ stays ret' (record s { injector = gone }) refl
two_steps ret ret' injecting s e a q = elim (Bool-cases (is_neg ret)) [
  | inl bad ↦
      ap (step (injects ret')) (fails ret s e bad) ∙ stays ret' (record s { injector = gone }) refl
  | inr good ↦
      ap (step (injects ret')) (goes_on ret s e good)
      ∙ stops_at_test ret' (record s { injector = testing }) refl q
]

joins_gone :
    (s : Session)
    → s.joining ≡ true
    → s.injector ≡ gone
    → step joins s ≡ record s { joining = false; injector = absent; joinable = false }
unfolding step join
joins_gone s j g = simp j (simp g refl)

-- What the join finds: the handler waits, the thread knows that it should end.
abbrev Ending : Session → Type 0
Ending s =
    (s.joining ≡ true)
    × (s.injector ≢ absent)
    × (s.loop_quit ≡ true)
    × (s.injection_thread_flag ≡ false)

ends_in_join :
    (s : Session) (ret ret' : ℤ)
    → Ending s
    → let t = run (injects ret ∷ injects ret' ∷ joins ∷ []) s in
      (t.joining ≡ false)
      × (t.injector ≡ absent)
      × (t.joinable ≡ false)
      × (t.injection_thread_flag ≡ false)
unfolding run
ends_in_join s ret ret' (j, there, q, f) =
    rw
      (
        two_steps ret ret' s.injector s refl there q,
        joins_gone (record s { injector = gone }) j refl,
      )
      (refl, refl, refl, f)

stops-Ending :
    (ret : ℤ) (s : Session)
    → IsSound s
    → s.joining ≡ false
    → s.injection_thread_flag ≡ true
    → Ending (step (orders ret stops) s)
unfolding step cmd_handler enter_join
stops-Ending ret s i j f =
    let live : s.joinable ≡ true = sym (i.flagged j) ∙ f in
    let there : s.injector ≢ absent = ground arith in
    simp j (simp f (simp live (refl, there, refl, refl)))

-- A stop ends the injection thread, wherever it is. In every interleaving in which pthread_create
-- never fails, when the handler takes no other command and the flag says that the thread runs: after
-- the command to stop, at most two steps of the thread, whatever do_geo_fix returns, let the join
-- return, with no thread left to run or to join and with the flag reset.
pub stop-returns :
    (ms : List Move) (ret ret' ret'' : ℤ)
    → All Creates ms
    → (run ms at_start).joining ≡ false
    → (run ms at_start).injection_thread_flag ≡ true
    → let t =
        run (orders ret stops ∷ injects ret' ∷ injects ret'' ∷ joins ∷ []) (run ms at_start) in
      (t.joining ≡ false)
      × (t.injector ≡ absent)
      × (t.joinable ≡ false)
      × (t.injection_thread_flag ≡ false)
unfolding run
stop-returns ms ret ret' ret'' z j f =
    let s = run ms at_start in
    ends_in_join (step (orders ret stops) s) ret' ret'' (stops-Ending ret s (run-IsSound ms z) j f)

-- If pthread_create fails, its result is not looked at: the flag is set, and at the next stop the
-- handler joins a thread that was never started.
failed_start-misuses :
    (ret ret' : ℤ) (s : Session)
    → is_zero ret ≡ false
    → s.joining ≡ false
    → s.injection_thread_flag ≡ false
    → s.joinable ≡ false
    → (step (orders ret' stops) (step (orders ret starts) s)).misuses ≡ joins_nothing ∷ s.misuses
unfolding step cmd_handler create enter_join
failed_start-misuses ret ret' s z j f l =
    simp j (simp f (simp z (simp l (ground (arith, j, f, z, l)))))
