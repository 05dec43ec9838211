-- ===== src/Gps/Sample/Bounds.antt =====
-- The arrays of host_camera_service/virtual_gps_receiver_sample.cc, and what is written to them.
use host_camera_server.Base.{
  ℕ, ◌*◌, ◌≤◌, ◌<◌, ◌≡◌, inl, inr, List, [], ◌∷◌, ℤ, Option, some, All, arith, leb, length,
  length-append, padded, padded-length, codes, Bool-cases,
}
use host_camera_server.Gps.Sample.Checks.{do_geo_fix-Accepted}
use host_camera_server.Gps.Sample.{
  Doubles, s_size, time_of, param, joined, angle_parts, angle, altitude, sentence_parts, sentence,
  do_geo_fix,
}

-- "%.1g" prints a sign, a digit, and an exponent of at most three digits.
pub record PrintsShort (d : Doubles) : Type 0 where
  pub short : (x : d.Double) → length (d.print_1g x) ≤ 7

-- Parts that are each no longer than `n`.
joined-length :
    (n : ℕ) (ps : List (List ℕ)) → All (λ p. length p ≤ n) ps → length (joined ps) ≤ n * length ps
joined-length n [] h = omega arith
joined-length n (p ∷ ps) h = omega (arith, joined-length n ps h.1, length-append p (joined ps), h.0)

two : (z : ℤ) → length (padded 2 z) ≤ 11
two z = padded-length 2 z (omega arith)

four : (z : ℤ) → length (padded 4 z) ≤ 11
four z = padded-length 4 z (omega arith)

time-length :
    (h m s : ℤ) → length (joined (codes "$GPGGA," ∷ padded 2 h ∷ padded 2 m ∷ padded 2 s ∷ [])) ≤ 77
time-length h m s =
    let le =
      joined-length 11 (codes "$GPGGA," ∷ padded 2 h ∷ padded 2 m ∷ padded 2 s ∷ [])
        (omega arith, (two h, (two m, (two s, tt)))) in
    omega (arith, le)

count-length : (n : ℤ) → length (joined (codes ",1," ∷ padded 2 n ∷ codes "," ∷ [])) ≤ 77
count-length n =
    let le =
      joined-length 11 (codes ",1," ∷ padded 2 n ∷ codes "," ∷ [])
        (omega arith, (two n, (omega arith, tt))) in
    omega (arith, le)

module _ (d : Doubles) where
  angle-length : (p n : ℕ) (x : d.Double) → length (angle d p n x) ≤ 77
  unfolding angle_parts
  angle-length p n x =
      joined-length 11 (angle_parts d p n x)
        (omega arith, (two _, (two _, (omega arith, (four _, (omega arith, (omega arith, tt)))))))

  module _ (prints : PrintsShort d) where
    altitude-length : (params : List d.Double) → length (altitude d params) ≤ 77
    unfolding altitude
    altitude-length params = elim (Bool-cases (leb 3 (length params))) [
      | inl given ↦
          let x = param d params 2 in
          let h : length (altitude d params) ≤ 21 = rw given (
            joined-length 7 (codes "," ∷ d.print_1g x ∷ codes ",M,0.,M" ∷ [])
              (omega arith, (prints.short x, (omega arith, tt)))) in
          omega (arith, h)
      | inr absent ↦ rw (absent, altitude) (omega arith)
    ]

    sentence-length :
        (clock : Option ℕ) (params : List d.Double) (n : ℤ)
        → length (sentence d clock params n) < s_size
    unfolding sentence_parts
    sentence-length clock params n =
        let (hh, mm, ss) = time_of clock in
        let at_lat = angle-length b'N' b'S' (param d params 1) in
        let at_long = angle-length b'E' b'W' (param d params 0) in
        let le = joined-length 77 (sentence_parts d clock params n) (
          time-length hh mm ss,
          (
            at_lat,
            (at_long, (count-length n, (altitude-length params, (omega arith, (omega arith, tt))))),
          ),
        ) in
        omega (arith, le)

    -- With "%.1g" as documented, a sentence of do_geo_fix fits the array `s` with the NUL that is put
    -- behind it.
    pub do_geo_fix-fits :
        (clock : Option ℕ) (args text : List ℕ)
        → do_geo_fix d clock args ≡ some text
        → length text < s_size
    do_geo_fix-fits clock args text e =
        let a = do_geo_fix-Accepted d clock args text e in
        rw a.written (sentence-length clock a.params a.count)
