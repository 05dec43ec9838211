-- ===== src/Gps/Sample/Prompt.antt =====
-- The prompt of main() in host_camera_service/virtual_gps_receiver_sample.cc.
use host_camera_server.Base.{
  ℕ, zero, suc, ◌≡◌, refl, ap, ◌∙◌, List, [], ◌∷◌, ◌++◌, Bool, false, ltb, ◌==◌, length, All,
  replicate, if◌then◌else◌,
}

-- What scanf("%s") does: it meets the end of the input, or reads a word.
pub data Scanned : Type 0 where
  eof : Scanned
  word : List ℕ → Scanned

-- Where the loop is: it asks again, main() has returned, or a word was longer than `str`.
pub data Prompt : Type 0 where
  asking quit overrun : Prompt

-- The room of `str`.
abbrev pub room : ℕ
room = 16

-- strcmp(str, "q") == 0.
abbrev pub is_q : List ℕ → Bool
is_q (c ∷ []) = c == b'q'
is_q _ = false

unfoldable pub answer : Scanned → Prompt
answer eof = asking
answer (word w) = if ltb (length w) room then (if is_q w then quit else asking) else overrun

unfoldable pub ask : Prompt → Scanned → Prompt
unfolding answer
ask asking scanned = answer scanned
ask quit scanned = quit
ask overrun scanned = overrun

-- The loop over what scanf() meets, one after the other.
unfoldable pub prompt : Prompt → List Scanned → Prompt
unfolding ask
prompt p [] = p
prompt p (s ∷ ss) = prompt (ask p s) ss

-- Past the end of the input the loop goes on for ever, since each further scanf() meets it again.
pub prompt-eof : (n : ℕ) → prompt asking (replicate n eof) ≡ asking
unfolding prompt
prompt-eof zero = refl
prompt-eof (suc n) = prompt-eof n

prompt_quit : (ss : List Scanned) → prompt quit ss ≡ quit
unfolding prompt
prompt_quit [] = refl
prompt_quit (s ∷ ss) = prompt_quit ss

-- A word that is read without a quit or an overrun before it.
abbrev IsPlain : Scanned → Type 0
IsPlain s = answer s ≡ asking

ask_plain : (s : Scanned) → IsPlain s → ask asking s ≡ asking
unfolding ask
ask_plain s h = h

-- After words that fit and are not "q", a "q" ends the program.
pub prompt-quits :
    (before after : List Scanned)
    → All IsPlain before
    → prompt asking (before ++ (word (b'q' ∷ []) ∷ after)) ≡ quit
unfolding prompt answer
prompt-quits [] after h = prompt_quit after
prompt-quits (s ∷ ss) after h =
    ap (λ p. prompt p (ss ++ (word (b'q' ∷ []) ∷ after))) (ask_plain s h.0)
    ∙ prompt-quits ss after h.1
