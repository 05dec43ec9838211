-- ===== src/Input/Command/Splitting.antt =====
-- How onInputMessage and onJoystickMessage cut a message: find, substr and the test for a carriage
-- return, where a line `t` stands after `pre`.
use host_camera_server.Base.{
  ℕ, zero, suc, ◌+◌, ◌≡◌, ◌≢◌, refl, sym, List, [], ◌∷◌, ◌++◌, append_assoc, some, All, arith,
  length, length-append, take, drop-length_append, get_or,
}
use host_camera_server.Input.Scan.{find_newline, substr}
use host_camera_server.Input.Scan.Numerals.{IsPlain, newline_in-append, take-line}
use host_camera_server.Input.Command.{next_begin}

get_or-append : (xs ys : List ℕ) (n : ℕ) → n ≡ length xs → get_or (xs ++ ys) n 0 ≡ get_or ys 0 0
get_or-append [] ys n h = rw h
get_or-append (x ∷ xs) ys zero h = absurd (omega arith)
get_or-append (x ∷ xs) ys (suc n) h = get_or-append xs ys n (omega arith)

module _ (pre t rest : List ℕ) where
  abbrev pub past : List ℕ
  past = (pre ++ t) ++ 10 ∷ []

  pub regroup : pre ++ (t ++ 10 ∷ rest) ≡ past ++ rest
  regroup = rw (append_assoc (pre ++ t) (10 ∷ []) rest) (sym (append_assoc pre t (10 ∷ rest)))

  pub find_newline-line :
      All IsPlain t
      → find_newline (pre ++ (t ++ 10 ∷ rest)) (length pre) ≡ some (length pre + length t)
  unfolding find_newline
  find_newline-line h = rw (
    find_newline,
    drop-length_append pre (t ++ 10 ∷ rest) (length pre) refl,
    newline_in-append t rest h,
  )

  pub substr-line :
      (k : ℕ) × (substr (pre ++ (t ++ 10 ∷ rest)) (length pre) (length pre + length t)
        ≡ t ++ take k (10 ∷ rest))
  unfolding substr
  substr-line =
      let (k, e) = take-line (length pre + length t) t rest (omega arith) in
      (k, rw (drop-length_append pre (t ++ 10 ∷ rest) (length pre) refl) e)

  length-past : length past ≡ length pre + length t + 1
  length-past = omega (arith, length-append (pre ++ t) (10 ∷ []), length-append pre t)

  pub next_begin-line :
      get_or rest 0 0 ≢ 13
      → next_begin (pre ++ (t ++ 10 ∷ rest)) (length pre + length t) ≡ length past
  unfolding next_begin
  next_begin-line h = rw regroup (
      ground (
        arith,
        length-past,
        get_or-append past rest (length pre + length t + 1) (sym length-past),
        h,
      ))
