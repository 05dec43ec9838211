-- ===== src/Input/Sample/Reading.antt =====
-- The joystick messages of host_camera_service/virtual_input_receiver_sample.cc as lines of the
-- grammar, read by a function of its own, and the keys that a list of lines leaves down.
use host_camera_server.Base.{
  ℕ, ◌≡◌, ◌≢◌, refl, ap, sym, ◌∙◌, List, [], ◌∷◌, Bool, true, false, ◌&&◌, ℤ, pos, All, arith, ◌==◌,
  ltb, if◌then◌else◌, some,
}
use host_camera_server.Input.Device.{Platform, Receiver, attempted}
use host_camera_server.Input.Reader.{held, is_zero, IsKeyDistinct}
use host_camera_server.Input.Scan.{is_digit}
use host_camera_server.Input.Scan.Numerals.{IsNumeral, IsDigit, value}
use host_camera_server.Input.Joystick.{click, on_joystick_message}
use host_camera_server.Input.Joystick.Lines.{
  Kind, keys, miscs, axes, Line, commits, plugs, pulls, codes, message, IsLine, signed, act,
  act_all, on_joystick_message-lines,
}

-- The characters up to one, and those after it.
abbrev cut : ℕ → List ℕ → List ℕ × List ℕ
cut c [] = ([], [])
cut c (x ∷ xs) = let rest = cut c xs in if x == c then ([], xs) else (x ∷ rest.0, rest.1)

abbrev signed_of : Kind → List ℕ → List ℕ → Line
signed_of t code [] = codes t code false []
signed_of t code (c ∷ cs) = if c == b'-' then codes t code true cs else codes t code false (c ∷ cs)

abbrev coded_of : Kind → List ℕ → Line
coded_of t cs = let parts = cut 32 cs in signed_of t parts.0 parts.1

-- What a line seems to be; `reads` tells whether it is.
abbrev line_of : List ℕ → Line
line_of [] = commits
line_of (c ∷ cs) =
    if c == b'c'
    then commits
    else if c == b'i'
    then plugs
    else if c == b'p'
    then pulls
    else coded_of (if c == b'k' then keys else if c == b'm' then miscs else axes) (cut 32 cs).1

-- The lines of a message of one or two lines.
abbrev pub lines_of : List ℕ → List Line
lines_of cs =
    let parts = cut 10 cs in
    line_of parts.0 ∷ elim parts.1 [ [] ↦ [] | c ∷ cs' ↦ line_of (cut 10 (c ∷ cs')).0 ∷ [] ]

abbrev same : List ℕ → List ℕ → Bool
same [] [] = true
same (x ∷ xs) (y ∷ ys) = x == y && same xs ys
same _ _ = false

abbrev all_digits : List ℕ → Bool
all_digits [] = true
all_digits (c ∷ cs) = is_digit c && all_digits cs

abbrev is_numeral : List ℕ → Bool
is_numeral [] = false
is_numeral (c ∷ cs) = is_digit c && all_digits cs

abbrev is_line : Line → Bool
is_line (codes t code negative ds) =
    is_numeral code && is_numeral ds && ltb (value code) 65536 && ltb (value ds) 2147483648
is_line _ = true

abbrev are_lines : List Line → Bool
are_lines [] = true
are_lines (l ∷ ls) = is_line l && are_lines ls

-- The message is a message of the grammar.
unfoldable pub reads : List ℕ → Bool
unfolding is_digit
reads cs = same (message (lines_of cs)) cs && are_lines (lines_of cs)

same_lem : (xs ys : List ℕ) → same xs ys ≡ true → xs ≡ ys
same_lem [] [] h = refl
same_lem (x ∷ xs) (y ∷ ys) h = ground (arith, same_lem xs ys)
same_lem [] (y ∷ ys) h = absurd cc
same_lem (x ∷ xs) [] h = absurd cc

all_digits_lem : (cs : List ℕ) → all_digits cs ≡ true → All IsDigit cs
all_digits_lem [] h = tt
all_digits_lem (c ∷ cs) h = ground (arith, all_digits_lem cs)

is_numeral_lem : (cs : List ℕ) → is_numeral cs ≡ true → IsNumeral cs
is_numeral_lem [] h = absurd cc
is_numeral_lem (c ∷ cs) h = ground (arith, all_digits_lem cs)

is_line_lem : (l : Line) → is_line l ≡ true → IsLine l
is_line_lem commits h = tt
is_line_lem plugs h = tt
is_line_lem pulls h = tt
is_line_lem (codes t code negative ds) h = ground (arith, is_numeral_lem code, is_numeral_lem ds)

are_lines_lem : (ls : List Line) → are_lines ls ≡ true → All IsLine ls
are_lines_lem [] h = tt
are_lines_lem (l ∷ ls) h = ground (arith, is_line_lem l, are_lines_lem ls)

pub both : (a b : Bool) → a && b ≡ true → (a ≡ true) × (b ≡ true)
both true b h = (refl, h)
both false b h = absurd cc

-- A message that reads well has the effect of its lines.
pub reads-acts :
    (os : Platform) (cs : List ℕ) (r : Receiver)
    → reads cs ≡ true
    → on_joystick_message os cs r ≡ some (act_all os (lines_of cs) r, pos 0)
unfolding reads
reads-acts os cs r h =
    let ls = lines_of cs in
    let (e, good) = both (same (message ls) cs) (are_lines ls) h in
    ap (λ m. on_joystick_message os m r) (sym (same_lem (message ls) cs e))
    ∙ on_joystick_message-lines os ls r (are_lines_lem ls good)

-- The keys that are down after a line, given those that were.
abbrev remove : ℕ → List ℕ → List ℕ
remove k [] = []
remove k (x ∷ xs) = if x == k then remove k xs else x ∷ remove k xs

abbrev pub mem : ℕ → List ℕ → Bool
mem k [] = false
mem k (x ∷ xs) = if x == k then true else mem k xs

abbrev press : ℕ → ℤ → List ℕ → List ℕ
press k v ks = if is_zero v then remove k ks else k ∷ ks

abbrev after_line : Line → List ℕ → List ℕ
after_line commits ks = ks
after_line plugs ks = remove 631 ks
after_line pulls ks = remove 632 ks
after_line (codes keys code negative ds) ks = press (value code) (signed negative (value ds)) ks
after_line (codes miscs code negative ds) ks = ks
after_line (codes axes code negative ds) ks = ks

abbrev pub after_lines : List Line → List ℕ → List ℕ
after_lines [] ks = ks
after_lines (l ∷ ls) ks = after_lines ls (after_line l ks)

mem-remove : (k c : ℕ) (ks : List ℕ) → mem k (remove c ks) ≡ (if c == k then false else mem k ks)
mem-remove k c [] = ground arith
mem-remove k c (x ∷ xs) = ground (arith, mem-remove k c xs)

-- A reader of the pipe sees exactly these keys down.
abbrev pub Sees : Platform → List ℕ → Receiver → Type 0
Sees os ks r = (k : ℕ) → held os k (attempted r.effects) ≡ mem k ks

module _ (os : Platform) (apart : IsKeyDistinct os) (misc : os.ev_msc ≢ os.ev_key) where
  act-Sees :
      (l : Line) (ks : List ℕ) (r : Receiver)
      → Sees os ks r
      → Sees os (after_line l ks) (act os l r)
  unfolding held attempted click
  act-Sees commits ks r h k = ground (arith, h k)
  act-Sees plugs ks r h k = ground (arith, h k, mem-remove k 631 ks)
  act-Sees pulls ks r h k = ground (arith, h k, mem-remove k 632 ks)
  act-Sees (codes keys code negative ds) ks r h k =
      ground (arith, h k, mem-remove k (value code) ks)
  act-Sees (codes miscs code negative ds) ks r h k = ground (arith, h k)
  act-Sees (codes axes code negative ds) ks r h k = ground (arith, h k)

  pub act_all-Sees :
      (ls : List Line) (ks : List ℕ) (r : Receiver)
      → Sees os ks r
      → Sees os (after_lines ls ks) (act_all os ls r)
  act_all-Sees [] ks r h = h
  act_all-Sees (l ∷ ls) ks r h = act_all-Sees ls (after_line l ks) (act os l r) (act-Sees l ks r h)
