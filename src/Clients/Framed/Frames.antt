-- ===== src/Clients/Framed/Frames.antt =====
-- What a reader finds in the bytes that the program of Framed has sent.
use host_camera_server.Base.{
  ℕ, zero, suc, ◌+◌, ◌*◌, ◌≤◌, ◌<◌, ◌≡◌, refl, sym, ap, subst, ◌∙◌, ◌⊎◌, inl, inr, List, [], ◌∷◌,
  ◌++◌, Bool, Bool-cases, ℤ, true, some, pos_part, length, take, drop, get_or, bytes_of_words,
  bytes32, word32-bytes32, ◌/◌, ◌%◌, words_of_bytes, arith, IsWord, append-nil, joined,
  append_assoc, length-take, take-append_drop, take-length, All,
}
use host_camera_server.Net.Client.{StreamClient}
use host_camera_server.Talker.{is_size}
use host_camera_server.Clients.Reading.{
  Framing, read_frames, framed, read_frames-framed, framed-append,
}
use host_camera_server.Clients.Framed.{
  Phase, Sender, looping, broken, size_bytes, send_whole, send_data, send_frame, send_piece, round,
  loop_at, loop, first, room,
}

-- The peer takes the eight bytes as a number.
abbrev pub size_of : List ℕ → ℕ
size_of bytes = let ws = words_of_bytes (take 8 bytes) in get_or ws 0 0 + 4294967296 * get_or ws 1 0

abbrev pub times : ℕ → List ℕ → List ℕ
times zero bytes = []
times (suc k) bytes = times k bytes ++ bytes

abbrev pub IsShort : List ℕ → Type 0
IsShort packet = (0 < length packet) × (length packet ≤ room)

pub size_of-size_bytes :
    (n : ℕ) (rest : List ℕ) → IsWord n → some (size_of (size_bytes n ++ rest)) ≡ some n
unfolding size_bytes bytes_of_words words_of_bytes bytes32
size_of-size_bytes n rest h =
    ap some
      (omega (arith, word32-bytes32 (n % 4294967296), word32-bytes32 (n / 4294967296 % 4294967296)))

pub length-size_bytes : (n : ℕ) → length (size_bytes n) ≡ 8
unfolding size_bytes bytes_of_words bytes32
length-size_bytes n = refl

abbrev pub sized : Framing
sized = record {
  head = size_bytes;
  size_of = λ bytes. some (size_of bytes);
  head_read = size_of-size_bytes;
  head_length = length-size_bytes;
}

IsShort-IsWord :
    (packets : List (List ℕ)) → All IsShort packets → All (λ packet. IsWord (length packet)) packets
IsShort-IsWord [] h = tt
IsShort-IsWord (p ∷ ps) h = (omega (arith, h.0.1), IsShort-IsWord ps h.1)

-- The bytes that went out are whole frames, and what they carry, with what is left of the file, is
-- the file, some number of times.
abbrev pub Carries : List ℕ → List ℕ → List ℕ → Type 0
Carries file wire rest =
    (packets : List (List ℕ)) × (k : ℕ) × (read_frames sized (length packets) wire ≡ some packets)
    × (wire ≡ framed sized packets)
    × All IsShort packets
    × (joined packets ++ rest ≡ times k file)

joined-append : (ps qs : List (List ℕ)) → joined (ps ++ qs) ≡ joined ps ++ joined qs
joined-append [] qs = refl
joined-append (p ∷ ps) qs = rw (joined-append ps qs, append_assoc p (joined ps) (joined qs)) refl

All-append :
    (ps : List (List ℕ)) (q : List ℕ) → All IsShort ps → IsShort q → All IsShort (ps ++ q ∷ [])
All-append [] q h hq = (hq, tt)
All-append (p ∷ ps) q h hq = (h.0, All-append ps q h.1 hq)

is_nil : (xs : List ℕ) (n : ℕ) → 0 < n → length (take n xs) ≡ 0 → xs ≡ []
is_nil [] n h e = refl
is_nil (x ∷ xs) zero h e = absurd (omega arith)
is_nil (x ∷ xs) (suc n) h e = absurd (omega arith)

-- One more frame, and the file started once more.
carry_frame :
    (file wire rest : List ℕ)
    → 0 < length (take room rest)
    → Carries file wire rest
    → Carries file
        (wire ++ (size_bytes (length (take room rest)) ++ take room rest))
        (drop room rest)
carry_frame file wire rest h (packets, k, reads, frames, shorts, whole) =
    let piece = take room rest in
    let out : wire ++ (size_bytes (length piece) ++ piece) ≡ framed sized (packets ++ piece ∷ []) =
      rw (framed-append sized, append-nil, frames) refl in
    let short : All IsShort (packets ++ piece ∷ []) =
      All-append packets piece shorts (h, omega (arith, length-take room rest)) in
    (
      packets ++ piece ∷ [],
      k,
      rw out (
          read_frames-framed sized (packets ++ piece ∷ [])
            (IsShort-IsWord (packets ++ piece ∷ []) short)),
      out,
      short,
      rw (joined-append, append-nil) (append_assoc (joined packets) piece (drop room rest))
          ∙ ap (λ (bs : List ℕ). joined packets ++ bs) (take-append_drop room rest)
          ∙ whole,
    )

carry_restart : (file wire : List ℕ) → Carries file wire [] → Carries file wire file
carry_restart file wire (packets, k, reads, frames, shorts, whole) = (
  packets,
  suc k,
  reads,
  frames,
  shorts,
  ap (λ (bs : List ℕ). bs ++ file) (sym (append-nil (joined packets)) ∙ whole),
)

Phase-cases : (phase : Phase) → (phase ≡ looping) ⊎ (phase ≡ broken)
Phase-cases looping = inl refl
Phase-cases broken = inr refl

is_size-whole : (z : ℤ) (n : ℕ) → is_size z n ≡ true → pos_part z ≡ n
is_size-whole z n h = ground (arith, h)

module _ (net : StreamClient) (file : List ℕ) (fails : ℕ → Bool) where
  send_whole-phase :
      (buf : List ℕ) (p : Sender net)
      → (send_whole net file fails buf p).phase ≡ looping
      → is_size (net.send buf p.socket).1.size (length buf) ≡ true
  unfolding send_whole
  send_whole-phase buf p h = ground (arith, h)

  send_whole-sent :
      (buf : List ℕ) (p : Sender net)
      → (send_whole net file fails buf p).phase ≡ looping
      → ((send_whole net file fails buf p).wire ≡ p.wire ++ buf)
        × ((send_whole net file fails buf p).rest ≡ p.rest)
  unfolding send_whole
  send_whole-sent buf p h =
      let size = is_size-whole _ (length buf) (send_whole-phase buf p h) in
      (rw (send_whole, size, take-length buf), refl)

  send_frame-sent :
      (packet : List ℕ) (p : Sender net)
      → (send_frame net file fails packet p).phase ≡ looping
      → ((send_frame net file fails packet p).wire
          ≡ p.wire ++ (size_bytes (length packet) ++ packet))
        × ((send_frame net file fails packet p).rest ≡ p.rest)
  unfolding send_frame send_data
  send_frame-sent packet p h =
      let n = size_bytes (length packet) in
      let q = send_whole net file fails n p in
      let goes : q.phase ≡ looping = ground (arith, h) in
      let head = send_whole-sent n p goes in
      let same : send_frame net file fails packet p ≡ send_whole net file fails packet q =
        rw (send_frame, send_data, goes) in
      let body = send_whole-sent packet q (ap (λ (r : Sender net). r.phase) (sym same) ∙ h) in
      (
        ap (λ (r : Sender net). r.wire) same
            ∙ body.0
            ∙ ap (λ (bs : List ℕ). bs ++ packet) head.0
            ∙ append_assoc p.wire n packet,
        ap (λ (r : Sender net). r.rest) same ∙ body.1 ∙ head.1,
      )

  -- A piece that is followed by another round was sent in a frame, or was the end of the file.
  send_piece-sent :
      (packet : List ℕ) (p : Sender net)
      → (send_piece net file fails packet p).phase ≡ looping
      → ((length packet ≡ 0)
          × ((send_piece net file fails packet p).wire ≡ p.wire)
          × ((send_piece net file fails packet p).rest ≡ file))
        ⊎ ((0 < length packet)
            × ((send_piece net file fails packet p).wire
                ≡ p.wire ++ (size_bytes (length packet) ++ packet))
            × ((send_piece net file fails packet p).rest ≡ p.rest))
  unfolding send_piece
  send_piece-sent packet p h = ground (arith, h, send_frame-sent packet p)

  -- A round that goes on has sent the next piece in a frame, or has started the file again.
  round-sent :
      (p : Sender net)
      → (round net file fails p).phase ≡ looping
      → ((length (take room p.rest) ≡ 0)
          × ((round net file fails p).wire ≡ p.wire)
          × ((round net file fails p).rest ≡ file))
        ⊎ ((0 < length (take room p.rest))
            × ((round net file fails p).wire
                ≡ p.wire ++ (size_bytes (length (take room p.rest)) ++ take room p.rest))
            × ((round net file fails p).rest ≡ drop room p.rest))
  unfolding round
  round-sent p h = elim (Bool-cases (fails p.reads)) [
    | inl bad ↦ absurd (ground (arith, h, bad))
    | inr good ↦
        rw (round, good)
          (send_piece-sent (take room p.rest)
            (record p { reads = p.reads + 1; rest = drop room p.rest }) (rw (round, good) at h))
  ]

  round-Carries :
      (p : Sender net)
      → Carries file p.wire p.rest
      → (round net file fails p).phase ≡ looping
      → Carries file (round net file fails p).wire (round net file fails p).rest
  round-Carries p c h = elim (round-sent p h) [
    | inl (empty, wire, rest) ↦
        rw (wire, rest)
          (carry_restart file p.wire
            (subst (Carries file p.wire) (is_nil p.rest room (omega arith) empty) c))
    | inr (some_left, wire, rest) ↦ rw (wire, rest) (carry_frame file p.wire p.rest some_left c)
  ]

  loop-broken :
      (n : ℕ) (p : Sender net) → p.phase ≡ broken → (loop net file fails n p).phase ≡ broken
  unfolding loop loop_at
  loop-broken zero p h = h
  loop-broken (suc n) p h = loop-broken n (loop_at net file fails p.phase p) (ground (arith, h))

  loops-Carries :
      (n : ℕ) (p : Sender net)
      → Carries file p.wire p.rest
      → (loop net file fails n p).phase ≡ looping
      → Carries file (loop net file fails n p).wire (loop net file fails n p).rest
  unfolding loop loop_at
  loops-Carries zero p c h = c
  loops-Carries (suc n) p c h = elim (Phase-cases p.phase) [
    | inr out ↦ absurd (ground (arith, h, out, loop-broken (suc n) p))
    | inl goes ↦
        let same : loop_at net file fails p.phase p ≡ round net file fails p = rw (goes, loop_at) in
        let h' : (loop net file fails n (round net file fails p)).phase ≡ looping =
          ap (λ q. (loop net file fails n q).phase) (sym same) ∙ h in
        let going : (round net file fails p).phase ≡ looping =
          elim (Phase-cases (round net file fails p).phase) [
            | inl on ↦ on
            | inr out ↦ absurd (ground (arith, h', loop-broken n (round net file fails p) out))
          ] in
        subst (λ q. Carries file (loop net file fails n q).wire (loop net file fails n q).rest)
          (sym same) (loops-Carries n (round net file fails p) (round-Carries p c going) h')
  ]

  -- As long as the program sends, in whatever way it came there, the bytes that the socket has taken
  -- are whole frames: the peer reads from them packets of 1 to 4160 bytes, and their bytes, with
  -- what is left of the file, are the file some number of times over.
  pub loop-Carries :
      (rounds : ℕ) (s : net.State)
      → (loop net file fails rounds (first net file fails s)).phase ≡ looping
      → Carries file
          (loop net file fails rounds (first net file fails s)).wire
          (loop net file fails rounds (first net file fails s)).rest
  loop-Carries rounds s h =
      loops-Carries rounds (first net file fails s) ([], 1, refl, refl, tt, refl) h
