-- ===== src/Gps/Sample.antt =====
-- do_geo_fix and do_geo_nmea of host_camera_service/virtual_gps_receiver_sample.cc.
pub mod Checks
pub mod Bounds
pub mod Position
pub mod Prompt
use host_camera_server.Base.{
  ℕ, zero, suc, ◌+◌, ◌*◌, ◌/◌, ◌%◌, List, [], ◌∷◌, ◌++◌, Bool, true, false, ◌&&◌, ◌||◌, not, ℤ, pos,
  negsuc, is_neg, pos_part, Option, none, some, ltb, leb, ◌==◌, length, u32, signed32, padded,
  codes, if◌then◌else◌,
}

abbrev pub s_size : ℕ
s_size = 1024

-- What the code uses of double: strtod, which gives the number and the rest of the text or no number,
-- the conversions from and to int, the comparisons, the arithmetic, "%.1g", "%.nf", and
-- 0.00001.
pub record Doubles : Type 1 where
  pub Double : Type 0
  pub strtod : List ℕ → Option (Double × List ℕ)
  pub to_int : Double → ℤ
  pub of_int : ℤ → Double
  pub equals : Double → Double → Bool
  pub below : Double → Double → Bool
  pub negate : Double → Double
  pub plus : Double → Double → Double
  pub minus : Double → Double → Double
  pub times : Double → Double → Double
  pub print_1g : Double → List ℕ
  pub print_f : ℕ → Double → List ℕ
  pub small_step : Double

-- The remainder of C, which has the sign of the first number.
abbrev pub rem : ℤ → ℕ → ℤ
rem (pos n) m = pos (n % m)
rem (negsuc n) m = elim ((n + 1) % m) [ zero ↦ pos 0 | suc k ↦ negsuc k ]

-- The conversion of a long to int.
abbrev pub int_of : ℕ → ℤ
int_of n = signed32 (u32 n)

-- Hours, minutes and seconds of the time that gettimeofday reported, or zeros if it failed.
unfoldable pub time_of : Option ℕ → ℤ × ℤ × ℤ
time_of none = (pos 0, pos 0, pos 0)
time_of (some s) = (rem (int_of (s / 3600)) 24, rem (int_of (s / 60)) 60, rem (int_of s) 60)

-- What one sprintf after the other appends.
abbrev pub joined : List (List ℕ) → List ℕ
joined [] = []
joined (p ∷ ps) = p ++ joined ps

unfoldable pub skip_blanks : List ℕ → List ℕ
skip_blanks [] = []
skip_blanks (c ∷ cs) = let rest = skip_blanks cs in if c == 32 || c == 9 then rest else c ∷ cs

-- do_geo_nmea up to the write: the bytes it hands over; it copies them, all of them and a newline,
-- to an array of S_SIZE.
unfoldable pub do_geo_nmea : List ℕ → List ℕ
do_geo_nmea args = args ++ 10 ∷ []

module _ (d : Doubles) where
  -- params[index].
  unfoldable pub param : List d.Double → ℕ → d.Double
  param [] n = d.of_int (pos 0)
  param (v ∷ vs) zero = v
  param (v ∷ vs) (suc n) = param vs n

  -- The loop over the tokens, where `left` entries of `params` are still free.
  unfoldable pub tokenize : ℕ → List ℕ → Option (List d.Double)
  unfolding skip_blanks
  tokenize zero p = some []
  tokenize (suc left) [] = some []
  tokenize (suc left) (c ∷ cs) = elim (d.strtod (c ∷ cs)) [
    | none ↦ none
    | some (val, end) ↦ elim (tokenize left (skip_blanks end)) [
      | none ↦ none
      | some vals ↦ some (val ∷ vals)
    ]
  ]

  -- `n_satellites`, if the argument is an integer in range.
  unfoldable pub checked_count : d.Double → Option ℤ
  checked_count given =
      let n = d.to_int given in
      if not (d.equals (d.of_int n) given) || is_neg n || ltb (pos_part n) 1 || ltb 12 (pos_part n)
      then none
      else some n

  -- The number of satellites, from the fifth argument or the fourth, or 1.
  unfoldable pub satellites : List d.Double → Option ℤ
  unfolding param checked_count
  satellites params =
      if leb 4 (length params)
      then checked_count (param params (if leb 5 (length params) then 4 else 3))
      else some (pos 1)

  -- An angle in degrees and minutes, with one of two letters for its sign.
  unfoldable pub angle_parts : ℕ → ℕ → d.Double → List (List ℕ)
  angle_parts positive negative given =
      let below = d.below given (d.of_int (pos 0)) in
      let val = if below then d.negate given else given in
      let deg = d.to_int val in
      let minutes = d.times (d.of_int (pos 60)) (d.minus val (d.of_int deg)) in
      let min = d.to_int minutes in
      let rest = d.times (d.of_int (pos 10000)) (d.minus minutes (d.of_int min)) in
      codes ","
      ∷ padded 2 deg
      ∷ padded 2 min
      ∷ codes "."
      ∷ padded 4 (d.to_int rest)
      ∷ codes ","
      ∷ ((if below then negative else positive) ∷ [])
      ∷ []

  abbrev pub angle : ℕ → ℕ → d.Double → List ℕ
  angle positive negative given = joined (angle_parts positive negative given)

  -- What the sentence says after the number of satellites.
  unfoldable pub altitude : List d.Double → List ℕ
  unfolding param
  altitude params =
      if leb 3 (length params)
      then joined (codes "," ∷ d.print_1g (param params 2) ∷ codes ",M,0.,M" ∷ [])
      else codes ",,,,"

  unfoldable pub sentence_parts : Option ℕ → List d.Double → ℤ → List (List ℕ)
  unfolding time_of angle_parts altitude param
  sentence_parts clock params n_satellites =
      let (hh, mm, ss) = time_of clock in
      joined (codes "$GPGGA," ∷ padded 2 hh ∷ padded 2 mm ∷ padded 2 ss ∷ [])
      ∷ angle b'N' b'S' (param params 1)
      ∷ angle b'E' b'W' (param params 0)
      ∷ joined (codes ",1," ∷ padded 2 n_satellites ∷ codes "," ∷ [])
      ∷ altitude params
      ∷ codes ",,,*47"
      ∷ (10 ∷ [])
      ∷ []

  abbrev pub sentence : Option ℕ → List d.Double → ℤ → List ℕ
  sentence clock params n = joined (sentence_parts clock params n)

  -- do_geo_fix up to the write: the sentence, or none where it returns -1 before.
  unfoldable pub do_geo_fix : Option ℕ → List ℕ → Option (List ℕ)
  unfolding tokenize satellites sentence_parts
  do_geo_fix clock args = elim (tokenize 5 args) [
    | none ↦ none
    | some params ↦
        if ltb (length params) 2
        then none
        else elim (satellites params) [ none ↦ none | some n ↦ some (sentence clock params n) ]
  ]
