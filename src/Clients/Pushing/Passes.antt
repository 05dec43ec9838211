-- ===== src/Clients/Pushing/Passes.antt =====
-- What the thread of Pushing sends while it is not stopped.
use host_camera_server.Base.{
  Option-cases, inl, inr, ℕ, zero, suc, ◌+◌, ◌*◌, ◌≤◌, ◌<◌, ◌≡◌, refl, sym, ap, subst, ◌∙◌, List,
  [], ◌∷◌, ◌++◌, ◌||◌, ◌==◌, le→ltb_false, lt→ltb, false, Option, some, is_neg, length, take, drop,
  ltb, arith, joined, length-drop, length-take, All,
}
use host_camera_server.Net.Kernel.{IoResult}
use host_camera_server.Video.Sink.{overlay}
use host_camera_server.Clients.Pushing.{
  Pusher, looping, read, open_file, push, body, Phase, going, step, step_at, go_on, turn, turns,
  started,
}

-- The first `q` pieces of `size` bytes.
abbrev pub pieces : ℕ → ℕ → List ℕ → List (List ℕ)
pieces size zero bytes = []
pieces size (suc q) bytes = take size bytes ∷ pieces size q (drop size bytes)

-- Packets sent one after the other, on top of those sent before.
abbrev pub sent_after : List (List ℕ) → List (List ℕ) → List (List ℕ)
sent_after before [] = before
sent_after before (packet ∷ packets) = sent_after (packet ∷ before) packets

abbrev pub repeated : ℕ → List (List ℕ) → List (List ℕ)
repeated zero packets = []
repeated (suc k) packets = packets ++ repeated k packets

take-overlay :
    (n : ℕ) (bs cs : List ℕ) → n ≤ length bs → take n (overlay (take n bs) cs) ≡ take n bs
take-overlay zero bs cs h = refl
take-overlay (suc n) [] cs h = absurd (omega arith)
take-overlay (suc n) (b ∷ bs) cs h = ap (λ xs. b ∷ xs) (take_append n bs _ (omega arith))
  where
    take_append : (n : ℕ) (bs cs : List ℕ) → n ≤ length bs → take n (take n bs ++ cs) ≡ take n bs
    take_append zero bs cs h = refl
    take_append (suc n) [] cs h = absurd (omega arith)
    take_append (suc n) (b ∷ bs) cs h = ap (λ xs. b ∷ xs) (take_append n bs cs (omega arith))

-- The two conditions of the loop are one: the file has no whole piece left.
pub at_end :
    (size : ℕ) (bytes : List ℕ)
    → 0 < size
    → (length (take size bytes) == 0 || ltb (length bytes) size) ≡ ltb (length bytes) size
at_end size bytes h = ground (arith, length-take size bytes)

pub sent_after_append :
    (before ps qs : List (List ℕ))
    → sent_after before (ps ++ qs) ≡ sent_after (sent_after before ps) qs
sent_after_append before [] qs = refl
sent_after_append before (p ∷ ps) qs = sent_after_append (p ∷ before) ps qs

take_add : (m n : ℕ) (bs : List ℕ) → take (m + n) bs ≡ take m bs ++ take n (drop m bs)
take_add zero n bs = let none_more : 0 + n ≡ n = omega arith in rw none_more refl
take_add (suc m) n [] = let one : suc m + n ≡ suc (m + n) = omega arith in rw one (sym (take_nil n))
  where
    take_nil : (n : ℕ) → take {A = ℕ} n [] ≡ []
    take_nil zero = refl
    take_nil (suc n) = refl
take_add (suc m) n (b ∷ bs) =
    let one : suc m + n ≡ suc (m + n) = omega arith in rw one (ap (λ xs. b ∷ xs) (take_add m n bs))

pub joined-pieces :
    (size q : ℕ) (bytes : List ℕ)
    → q * size ≤ length bytes
    → joined (pieces size q bytes) ≡ take (q * size) bytes
joined-pieces size zero bytes h = let nothing : 0 * size ≡ 0 = omega arith in rw nothing refl
joined-pieces size (suc q) bytes h =
    let round : suc q * size ≡ size + q * size = omega arith in
    rw (
      round,
      take_add size (q * size) bytes,
      joined-pieces size q (drop size bytes) (omega (arith, length-drop size bytes)),
    )

pub pieces-IsWhole :
    (size q : ℕ) (bytes : List ℕ)
    → q * size ≤ length bytes
    → All (λ packet. length packet ≡ size) (pieces size q bytes)
pieces-IsWhole size zero bytes h = tt
pieces-IsWhole size (suc q) bytes h = (
  omega (arith, length-take size bytes),
  pieces-IsWhole size q (drop size bytes) (omega (arith, length-drop size bytes)),
)

module _ {S : Type 0} (files : ℕ → Option (List ℕ)) (size : ℕ)
    (send : List ℕ → S → S × IoResult) where
  -- A whole piece that is left is sent, the next one in the file.
  body-piece :
      (p : Pusher S)
      → 0 < size
      → size ≤ length p.rest
      → ((packet : List ℕ) (s : S) → is_neg (send packet s).1.size ≡ false)
      → ((body files size send p).sent ≡ take size p.rest ∷ p.sent)
        × ((body files size send p).rest ≡ drop size p.rest)
        × ((body files size send p).phase ≡ looping)
        × ((body files size send p).opened ≡ p.opened)
  unfolding body push read
  body-piece p hs h sends =
      rw
        (
          at_end size p.rest hs,
          le→ltb_false (length p.rest) size h,
          take-overlay size p.rest p.inbuf h,
          sends (take size p.rest) p.socket,
        )
        (refl, refl, refl, refl)

  body-end :
      (p : Pusher S) (bytes : List ℕ)
      → 0 < size
      → length p.rest < size
      → files p.opened ≡ some bytes
      → ((body files size send p).sent ≡ p.sent)
        × ((body files size send p).rest ≡ bytes)
        × ((body files size send p).phase ≡ looping)
        × ((body files size send p).opened ≡ p.opened + 1)
  unfolding body open_file read
  body-end p bytes hs h found =
      rw (at_end size p.rest hs, lt→ltb (length p.rest) size h, open_file, found)
        (refl, refl, refl, refl)

  -- The body does not look at the place of the thread.
  body-apart :
      (p : Pusher S) (ph : Phase)
      → body files size send (record p { phase = ph }) ≡ body files size send p
  unfolding body open_file push
  body-apart p ph = elim (Option-cases (files p.opened)) [
    | inl missing ↦ rw (body, open_file, missing) refl
    | inr (bytes, found) ↦ rw (body, open_file, found) refl
  ]

  turn-looping :
      (p : Pusher S) → p.phase ≡ looping → turn files size send p ≡ body files size send p
  unfolding turn step step_at go_on
  turn-looping p ph = simp ph (body-apart p going)

  -- A pass over what is left of the file: the `q` whole pieces, and the opening after them.
  turns-pass :
      (q : ℕ) (p : Pusher S) (bytes : List ℕ)
      → 0 < size
      → q * size ≤ length p.rest
      → length p.rest < q * size + size
      → p.phase ≡ looping
      → files p.opened ≡ some bytes
      → ((packet : List ℕ) (s : S) → is_neg (send packet s).1.size ≡ false)
      → ((turns files size send (suc q) p).sent ≡ sent_after p.sent (pieces size q p.rest))
        × ((turns files size send (suc q) p).rest ≡ bytes)
        × ((turns files size send (suc q) p).phase ≡ looping)
        × ((turns files size send (suc q) p).opened ≡ p.opened + 1)
  unfolding turns turn body
  turns-pass zero p bytes hs low high ph found sends =
      rw (turn-looping p ph) (body-end p bytes hs (omega arith) found)
  turns-pass (suc q) p bytes hs low high ph found sends =
      let (sent, rest, looks, opened) = body-piece p hs (omega arith) sends in
      let p1 = body files size send p in
      let ih =
        turns-pass q p1 bytes hs (omega (arith, ap length rest, length-drop size p.rest))
          (omega (arith, ap length rest, length-drop size p.rest)) looks (ap files opened ∙ found)
          sends in
      rw (turns, turn-looping p ph) (rw (sent, rest, opened) at ih)

  turns_add :
      (a b : ℕ) (p : Pusher S)
      → turns files size send (a + b) p ≡ turns files size send b (turns files size send a p)
  unfolding turns
  turns_add zero b p = let none_more : 0 + b ≡ b = omega arith in rw none_more refl
  turns_add (suc a) b p =
      let one : suc a + b ≡ suc (a + b) = omega arith in
      rw one (turns_add a b (turn files size send p))

  -- Passes over the same file, from its start.
  turns-passes :
      (k q : ℕ) (p : Pusher S) (bytes : List ℕ)
      → 0 < size
      → q * size ≤ length bytes
      → length bytes < q * size + size
      → p.phase ≡ looping
      → p.rest ≡ bytes
      → ((n : ℕ) → files n ≡ some bytes)
      → ((packet : List ℕ) (s : S) → is_neg (send packet s).1.size ≡ false)
      → ((turns files size send (k * suc q) p).sent
          ≡ sent_after p.sent (repeated k (pieces size q bytes)))
        × ((turns files size send (k * suc q) p).rest ≡ bytes)
        × ((turns files size send (k * suc q) p).phase ≡ looping)
  unfolding turns
  turns-passes zero q p bytes hs low high ph at_start found sends =
      let nothing : 0 * suc q ≡ 0 = omega arith in rw nothing (refl, at_start, ph)
  turns-passes (suc k) q p bytes hs low high ph at_start found sends =
      let (sent, rest, looks, opened) =
        turns-pass q p bytes hs (subst (λ (r : List ℕ). q * size ≤ length r) (sym at_start) low)
          (subst (λ (r : List ℕ). length r < q * size + size) (sym at_start) high) ph
          (found p.opened) sends in
      let ih =
        turns-passes k q (turns files size send (suc q) p) bytes hs low high looks rest found
          sends in
      let round : suc k * suc q ≡ suc q + k * suc q = omega arith in
      rw
        (
          round,
          turns_add (suc q) (k * suc q) p,
          sent_after_append p.sent (pieces size q bytes) (repeated k (pieces size q bytes)),
        )
        (
          ih.0
              ∙ ap (λ before. sent_after before (repeated k (pieces size q bytes)))
                  (sent ∙ ap (λ r. sent_after p.sent (pieces size q r)) at_start),
          ih.1,
          ih.2,
        )

  -- If the file is there at every opening and holds `q` whole pieces and less than one more, and no
  -- send fails, then 1 + k (q + 1) turns without a stop send the `q` pieces `k` times over and
  -- nothing else: in a pass go out, joined, the first q * size bytes of the file, in packets of
  -- `size` bytes each; what is left of the file is never sent.
  pub turns-started :
      (k q : ℕ) (bytes : List ℕ) (s : S) (stack : List ℕ)
      → 0 < size
      → q * size ≤ length bytes
      → length bytes < q * size + size
      → ((n : ℕ) → files n ≡ some bytes)
      → ((packet : List ℕ) (s : S) → is_neg (send packet s).1.size ≡ false)
      → ((turns files size send (suc (k * suc q)) (started s stack)).sent
          ≡ sent_after [] (repeated k (pieces size q bytes)))
        × (joined (pieces size q bytes) ≡ take (q * size) bytes)
        × All (λ packet. length packet ≡ size) (pieces size q bytes)
  unfolding turns turn step step_at go_on open_file
  turns-started k q bytes s stack hs low high found sends =
      let p = turn files size send (started s stack) in
      let facts : (p.sent ≡ []) × (p.phase ≡ looping) × (p.rest ≡ bytes) =
        rw (open_file, found 0) (refl, refl, refl) in
      (
        (turns-passes k q p bytes hs low high facts.1 facts.2 found sends).0
            ∙ ap (λ before. sent_after before (repeated k (pieces size q bytes))) facts.0,
        joined-pieces size q bytes low,
        pieces-IsWhole size q bytes low,
      )
