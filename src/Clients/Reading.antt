-- ===== src/Clients/Reading.antt =====
-- The peer of a program that sends packets, each behind eight bytes that say how long it is.
use host_camera_server.Base.{
  ℕ, zero, suc, ◌<◌, ◌≡◌, refl, sym, List, [], ◌∷◌, ◌++◌, Option, none, some, length, take, drop,
  ltb, le→ltb_false, if◌then◌else◌, arith, append_assoc, length-append, drop-length_append,
  take-length_append, All, IsWord,
}

-- What a program writes before a packet, and what the peer takes the packet's length to be from the
-- bytes that it has; `none` is anything else.
pub record Framing : Type 0 where
  pub head : ℕ → List ℕ
  pub size_of : List ℕ → Option ℕ
  pub head_read : (n : ℕ) (rest : List ℕ) → IsWord n → size_of (head n ++ rest) ≡ some n
  pub head_length : (n : ℕ) → length (head n) ≡ 8

-- A packet before those that follow it.
abbrev pub followed : List ℕ → Option (List (List ℕ)) → Option (List (List ℕ))
followed packet none = none
followed packet (some packets) = some (packet ∷ packets)

module _ (f : Framing) where
  -- The rest of the bytes behind a head, with what a reader makes of those behind the packet.
  abbrev split : Option ℕ → List ℕ → (List ℕ → Option (List (List ℕ))) → Option (List (List ℕ))
  split none after read = none
  split (some n) after read =
      let others = read (drop n after) in
      if ltb (length after) n then none else followed (take n after) others

  -- Packet after packet to the end of the bytes, at most `fuel` of them.
  abbrev pub read_frames : ℕ → List ℕ → Option (List (List ℕ))
  read_frames fuel [] = some []
  read_frames zero (b ∷ bs) = none
  read_frames (suc fuel) (b ∷ bs) = split (f.size_of (b ∷ bs)) (drop 8 (b ∷ bs)) (read_frames fuel)

  -- The bytes of packets, each behind its head.
  abbrev pub framed : List (List ℕ) → List ℕ
  framed [] = []
  framed (packet ∷ packets) = f.head (length packet) ++ (packet ++ framed packets)

  read_frames_step :
      (fuel : ℕ) (bytes : List ℕ)
      → 0 < length bytes
      → read_frames (suc fuel) bytes ≡ split (f.size_of bytes) (drop 8 bytes) (read_frames fuel)
  read_frames_step fuel [] h = absurd (omega arith)
  read_frames_step fuel (b ∷ bs) h = refl

  -- The peer reads the packets back.
  pub read_frames-framed :
      (packets : List (List ℕ))
      → All (λ packet. IsWord (length packet)) packets
      → read_frames (length packets) (framed packets) ≡ some packets
  read_frames-framed [] h = refl
  read_frames-framed (packet ∷ packets) h =
      let n = length packet in
      let after = packet ++ framed packets in
      let fits =
        le→ltb_false (length after) n (omega (arith, length-append packet (framed packets))) in
      let long : 0 < length (f.head n ++ after) =
        omega (arith, f.head_length n, length-append (f.head n) after) in
      rw (
        read_frames_step (length packets) (f.head n ++ after) long,
        f.head_read n after h.0,
        drop-length_append (f.head n) after 8 (sym (f.head_length n)),
        fits,
        drop-length_append packet (framed packets) n refl,
        read_frames-framed packets h.1,
        take-length_append packet (framed packets),
      )

  pub framed-append : (ps qs : List (List ℕ)) → framed (ps ++ qs) ≡ framed ps ++ framed qs
  framed-append [] qs = refl
  framed-append (p ∷ ps) qs =
      rw
        (
          framed-append ps qs,
          append_assoc (f.head (length p)) (p ++ framed ps) (framed qs),
          append_assoc p (framed ps) (framed qs),
        )
        refl
