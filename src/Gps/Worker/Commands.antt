-- ===== src/Gps/Worker/Commands.antt =====
-- The work thread of source/virtual_gps_receiver.cc over all its rounds: what reaches the handler,
-- and how the thread ends.
use host_camera_server.Base.{
  ℕ, zero, suc, ◌≡◌, refl, sym, ap, ◌∙◌, ◌⊎◌, inl, inr, List, [], ◌∷◌, Bool, true, false, is_neg,
  Option, none, some, arith, Option-cases, if◌then◌else◌,
}
use host_camera_server.Net.Kernel.{IoResult}
use host_camera_server.Gps.Receiver.{
  GpsKernel, Receiver, connect, is_connected, read_loop, read_bytes,
}
use host_camera_server.Gps.Worker.{
  command_of, obey, Round, next, exits, after_read, read_command, work, work_for,
}
use host_camera_server.Gps.Worker.Reading.{
  ReadFits, heard, IsAlike, IsAlike-refl, connect-IsAlike, ReadsByte, Returns, read_loop-ReadsByte,
}

-- The commands that bytes stand for; a byte that is none stands for nothing.
unfoldable pub translate : List ℕ → List ℕ
translate [] = []
translate (b ∷ bs) = elim (command_of b) [
  | none ↦ translate bs
  | some command ↦ command ∷ translate bs
]

-- The handler is set, and has been given the commands of all bytes that were read, in order.
pub record Obeys (g : Receiver) : Type 0 where
  pub handler : g.has_handler ≡ true
  pub given : g.commands ≡ translate (heard g.log)

Obeys-IsAlike : (g g' : Receiver) → IsAlike g g' → Obeys g → Obeys g'
Obeys-IsAlike g g' a h = record {
  handler = a.handler ∙ h.handler;
  given = a.commands ∙ h.given ∙ ap translate (sym a.log);
}

-- Where the thread may be after a round: it goes on; or it has left the loop, because it was stopped
-- or with the socket closed.
abbrev pub Ends : Receiver × Round → Type 0
Ends (g, next) = Obeys g
Ends (g, exits) = Obeys g × ((g.stop ≡ true) ⊎ (is_neg g.sock ≡ true))

obey-Obeys :
    (g g' : Receiver) (b : ℕ)
    → Obeys g
    → heard g'.log ≡ b ∷ heard g.log
    → g'.commands ≡ g.commands
    → g'.has_handler ≡ g.has_handler
    → Obeys (obey b g')
unfolding obey translate
obey-Obeys g g' b o l c h = elim (Option-cases (command_of b)) [
  | inl e ↦
      rw (e, obey) record { handler = h ∙ o.handler; given = rw (l, e, translate) (c ∙ o.given) }
  | inr (command, e) ↦
      rw (e, obey, h, o.handler)
        record {
          handler = refl;
          given = rw (l, e, translate) (ap (λ xs. command ∷ xs) (c ∙ o.given));
        }
]

after_read-Ends :
    (g g' : Receiver) (result : IoResult)
    → Obeys g
    → ReadsByte g g' result
    → Ends (after_read g' result)
unfolding after_read
after_read-Ends g g' result o (inl (b, size, got, l, c, h)) =
    rw (size, got, after_read) (obey-Obeys g g' b o l c h)
after_read-Ends g g' result o (inr (inl (size, a, s))) =
    rw (size, after_read) (Obeys-IsAlike g g' a o, inr s)
after_read-Ends g g' result o (inr (inr (size, a))) = rw (size, after_read) (Obeys-IsAlike g g' a o)

either :
    (b : Bool) (x y : Option (Receiver × Round))
    → (b ≡ true → Returns Ends x)
    → Returns Ends y
    → Returns Ends (if b then x else y)
either true x y f h = f refl
either false x y f h = h

map_Returns :
    (g : Receiver) (o : Obeys g) (read : Option (Receiver × IoResult))
    → Returns (λ x. ReadsByte g x.0 x.1) read
    → Returns Ends (elim read [ none ↦ none | some x ↦ some (after_read x.0 x.1) ])
map_Returns g o none h = absurd h
map_Returns g o (some (g', result)) h = after_read-Ends g g' result o h

module _ (k : GpsKernel) (fits : ReadFits k) where
  read_command-Ends : (g : Receiver) → Obeys g → Returns Ends (read_command k g)
  unfolding read_command read_bytes
  read_command-Ends g o = map_Returns g o (read_loop k 102 100 1 [] g) (
      read_loop-ReadsByte k fits g 102 100 g (omega arith) (omega arith) (omega arith)
        (IsAlike-refl g))

  work-Ends : (g : Receiver) → Obeys g → Returns Ends (work k g)
  unfolding work
  work-Ends g o =
      let dialled = Obeys-IsAlike g _ (connect-IsAlike k g) o in
      either g.stop _ _ (λ e. (o, inl e))
        (either (is_connected g) _ _ (λ c. read_command-Ends g o)
          (either (connect k g).1 _ _ (λ d. read_command-Ends _ dialled) dialled))

  then_rounds :
      (rounds : Receiver → Option (Receiver × Round)) (first : Option (Receiver × Round))
      → ((g : Receiver) → Obeys g → Returns Ends (rounds g))
      → Returns Ends first
      → Returns Ends (elim first [
        | none ↦ none
        | some (g1, exits) ↦ some (g1, exits)
        | some (g1, next) ↦ rounds g1
      ])
  then_rounds rounds none f h = absurd h
  then_rounds rounds (some (g, next)) f h = f g h
  then_rounds rounds (some (g, exits)) f h = h

  work_for-Ends : (n : ℕ) (g : Receiver) → Obeys g → Returns Ends (work_for k n g)
  unfolding work_for
  work_for-Ends zero g o = o
  work_for-Ends (suc n) g o =
      then_rounds (work_for k n) (work k g) (work_for-Ends n) (work-Ends g o)

Returns-some :
    (o : Option (Receiver × Round))
    → Returns Ends o
    → (g : Receiver) × (round : Round) × (o ≡ some (g, round)) × Ends (g, round)
Returns-some none h = absurd h
Returns-some (some (g, round)) h = (g, round, refl, h)

-- If read() never brings more than it is asked for, a handler is set and it has been given the
-- commands of all bytes so far, then any number of rounds of the work thread return, whatever the
-- calls return; the handler has been given the commands of all bytes that were read by then, each
-- once and in order; and if the thread has left its loop, it was stopped or its socket is closed.
pub work_for-Obeys :
    (k : GpsKernel) (n : ℕ) (g : Receiver)
    → ReadFits k
    → Obeys g
    → (g' : Receiver) × (round : Round) × (work_for k n g ≡ some (g', round)) × Ends (g', round)
work_for-Obeys k n g fits o = Returns-some _ (work_for-Ends k fits n g o)
