-- ===== src/Gps/Sharing/Owning.antt =====
-- Which descriptors the two threads of Sharing close.
use host_camera_server.Base.{
  ℕ, ◌≡◌, refl, ◌⊎◌, inl, inr, List, [], ◌∷◌, true, false, pos, is_neg, arith, Bool-cases, subst,
  sym, if◌then◌else◌,
}
use host_camera_server.Gps.Sharing.{
  Who, worker, writer, Pc, outside, testing, shutting, closing, clearing, Sharing, pc_of, other,
  goto, disconnect_step, enter, connect, Move, meets_end, goes_on, connects, move, run, at_start,
}

-- A thread enters Disconnect() or connects only while the other is outside Disconnect().
abbrev pub IsExclusive : List Move → Sharing → Type 0
IsExclusive [] s = Unit {0}
IsExclusive (meets_end who ∷ ms) s =
    (pc_of (other who) s ≡ outside) × IsExclusive ms (move (meets_end who) s)
IsExclusive (goes_on who ∷ ms) s = IsExclusive ms (move (goes_on who) s)
IsExclusive (connects fd ∷ ms) s = (s.writer_pc ≡ outside) × IsExclusive ms (move (connects fd) s)

-- Every descriptor that was opened was closed once, but for the one in use.
abbrev pub Owns : Sharing → Type 0
Owns s =
    ((is_neg s.sock ≡ true) × (s.opens ≡ s.closes))
    ⊎ ((is_neg s.sock ≡ false) × (s.opens ≡ s.sock ∷ s.closes))

-- What holds while one thread is in Disconnect().
abbrev Midway : Pc → Sharing → Type 0
Midway outside s = Owns s
Midway testing s = Owns s
Midway shutting s = (is_neg s.sock ≡ false) × (s.opens ≡ s.sock ∷ s.closes)
Midway closing s = (is_neg s.sock ≡ false) × (s.opens ≡ s.sock ∷ s.closes)
Midway clearing s = s.opens ≡ s.closes

-- One thread is in Disconnect(), or none.
abbrev Holds : Who → Sharing → Type 0
Holds who s = (pc_of (other who) s ≡ outside) × Midway (pc_of who s) s

abbrev Inv : Sharing → Type 0
Inv s = Holds worker s ⊎ Holds writer s

holding : (s : Sharing) → Owns s → is_neg s.sock ≡ false → s.opens ≡ s.sock ∷ s.closes
holding s h e = ground (arith, h, e)

-- The rest of Disconnect() looks at the descriptors only.
apart_from_pc :
    (pc : Pc) (who : Who) (p : Pc) (s : Sharing) → Midway pc s → Midway pc (goto who p s)
apart_from_pc outside worker p s h = h
apart_from_pc outside writer p s h = h
apart_from_pc testing worker p s h = h
apart_from_pc testing writer p s h = h
apart_from_pc shutting worker p s h = h
apart_from_pc shutting writer p s h = h
apart_from_pc closing worker p s h = h
apart_from_pc closing writer p s h = h
apart_from_pc clearing worker p s h = h
apart_from_pc clearing writer p s h = h

tested : (s : Sharing) → Owns s → Midway (if is_neg s.sock then outside else shutting) s
tested s h = elim (Bool-cases (is_neg s.sock)) [
  | inl none_left ↦ subst (λ b. Midway (if b then outside else shutting) s) (sym none_left) h
  | inr some_left ↦
      subst (λ b. Midway (if b then outside else shutting) s) (sym some_left)
        (some_left, holding s h some_left)
]

disconnect_step-Holds :
    (pc : Pc) (who : Who) (s : Sharing)
    → pc_of who s ≡ pc
    → pc_of (other who) s ≡ outside
    → Midway pc s
    → Holds who (disconnect_step pc who s)
unfolding disconnect_step
disconnect_step-Holds outside who s e o h = (o, subst (λ q. Midway q s) (sym e) h)
disconnect_step-Holds testing worker s e o h =
    let pc = if is_neg s.sock then outside else shutting in
    (o, apart_from_pc pc worker pc s (tested s h))
disconnect_step-Holds testing writer s e o h =
    let pc = if is_neg s.sock then outside else shutting in
    (o, apart_from_pc pc writer pc s (tested s h))
disconnect_step-Holds shutting worker s e o h = (o, h)
disconnect_step-Holds shutting writer s e o h = (o, h)
disconnect_step-Holds closing worker s e o h = (o, h.1)
disconnect_step-Holds closing writer s e o h = (o, h.1)
disconnect_step-Holds clearing worker s e o h = (o, inl (refl, h))
disconnect_step-Holds clearing writer s e o h = (o, inl (refl, h))

-- A thread outside has nothing to go on with.
rests : (pc : Pc) (who : Who) (s : Sharing) → pc ≡ outside → Inv s → Inv (disconnect_step pc who s)
unfolding disconnect_step
rests pc who s e h = subst (λ q. Inv (disconnect_step q who s)) (sym e) h

goes_on-Inv : (who : Who) (s : Sharing) → Inv s → Inv (move (goes_on who) s)
unfolding move
goes_on-Inv worker s (inl h) = inl (disconnect_step-Holds s.worker_pc worker s refl h.0 h.1)
goes_on-Inv worker s (inr h) = rests s.worker_pc worker s h.0 (inr h)
goes_on-Inv writer s (inl h) = rests s.writer_pc writer s h.0 (inl h)
goes_on-Inv writer s (inr h) = inr (disconnect_step-Holds s.writer_pc writer s refl h.0 h.1)

-- While no thread is inside, each descriptor but the current one is closed.
idle-Owns : (s : Sharing) → s.worker_pc ≡ outside → s.writer_pc ≡ outside → Inv s → Owns s
idle-Owns s e o (inl h) = subst (λ q. Midway q s) e h.1
idle-Owns s e o (inr h) = subst (λ q. Midway q s) o h.1

enter-Holds :
    (pc : Pc) (who : Who) (s : Sharing)
    → pc_of who s ≡ pc
    → pc_of (other who) s ≡ outside
    → Inv s
    → Inv (enter pc who s)
unfolding enter
enter-Holds outside worker s e o h = inl (o, idle-Owns s e o h)
enter-Holds outside writer s e o h = inr (o, idle-Owns s o e h)
enter-Holds testing who s e o h = h
enter-Holds shutting who s e o h = h
enter-Holds closing who s e o h = h
enter-Holds clearing who s e o h = h

connect-Inv :
    (pc : Pc) (fd : ℕ) (s : Sharing)
    → s.worker_pc ≡ pc
    → s.writer_pc ≡ outside
    → Inv s
    → Inv (connect pc fd s)
unfolding connect
connect-Inv outside fd s e o h =
    let owned = idle-Owns s e o h in
    elim (Bool-cases (is_neg s.sock)) [
      | inl none_left ↦
          subst (λ b. Inv (if b then (record s { sock = pos fd; opens = pos fd ∷ s.opens }) else s))
            (sym none_left)
            (inl (
              o,
              subst (λ q. Midway q (record s { sock = pos fd; opens = pos fd ∷ s.opens })) (sym e)
                  (inr (refl, ground (arith, owned, none_left))),
            ))
      | inr some_left ↦
          subst (λ b. Inv (if b then (record s { sock = pos fd; opens = pos fd ∷ s.opens }) else s))
            (sym some_left) h
    ]
connect-Inv testing fd s e o h = h
connect-Inv shutting fd s e o h = h
connect-Inv closing fd s e o h = h
connect-Inv clearing fd s e o h = h

runs-Inv : (ms : List Move) (s : Sharing) → IsExclusive ms s → Inv s → Inv (run ms s)
unfolding run move
runs-Inv [] s q h = h
runs-Inv (meets_end who ∷ ms) s q h = runs-Inv ms _ q.1 (enter-Holds (pc_of who s) who s refl q.0 h)
runs-Inv (goes_on who ∷ ms) s q h = runs-Inv ms _ q (goes_on-Inv who s h)
runs-Inv (connects fd ∷ ms) s q h = runs-Inv ms _ q.1 (connect-Inv s.worker_pc fd s refl q.0 h)

pub run-Owns :
    (ms : List Move)
    → IsExclusive ms at_start
    → (run ms at_start).worker_pc ≡ outside
    → (run ms at_start).writer_pc ≡ outside
    → Owns (run ms at_start)
run-Owns ms q e o =
    idle-Owns (run ms at_start) e o (runs-Inv ms at_start q (inl (refl, inl (refl, refl))))

-- Both threads meet the end of the connection, and take turns.
abbrev race : List Move
race =
    meets_end worker
    ∷ meets_end writer
    ∷ goes_on worker
    ∷ goes_on writer
    ∷ goes_on worker
    ∷ goes_on writer
    ∷ goes_on worker
    ∷ goes_on writer
    ∷ []

-- Where both are in it at once that fails: in the order of `race` the descriptor is closed twice.
race-closes_twice :
    (fd : ℕ) (s : Sharing)
    → s.sock ≡ pos fd
    → s.worker_pc ≡ outside
    → s.writer_pc ≡ outside
    → (run race s).closes ≡ pos fd ∷ pos fd ∷ s.closes
unfolding run move enter disconnect_step
race-closes_twice fd s h e o = ground (arith, h, e, o)
