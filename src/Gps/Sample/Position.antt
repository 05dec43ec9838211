-- ===== src/Gps/Sample/Position.antt =====
-- The options of main() and the walk of the position in injection_gps_data_thread of
-- host_camera_service/virtual_gps_receiver_sample.cc.
use host_camera_server.Base.{
  ℕ, ◌≡◌, inl, inr, List, [], ◌∷◌, Bool, true, false, ℤ, pos, negsuc, Option, ltb, ◌==◌, codes,
  if◌then◌else◌, Bool-cases,
}
use host_camera_server.Gps.Sample.{Doubles, joined, do_geo_fix}

-- The comparison of ints.
abbrev pub lt_int : ℤ → ℤ → Bool
lt_int (pos m) (pos n) = ltb m n
lt_int (pos m) (negsuc n) = false
lt_int (negsuc m) (pos n) = true
lt_int (negsuc m) (negsuc n) = ltb n m

unfoldable pub clamp : ℤ → ℤ → ℤ → ℤ
clamp low high z = let z1 = if lt_int z low then low else z in if lt_int high z1 then high else z1

module _ (d : Doubles) where
  -- The globals gps_long, gps_lat and gps_alt, with server_ip and port.
  pub record Globals : Type 0 where
    pub gps_long : d.Double
    pub gps_lat : d.Double
    pub gps_alt : d.Double
    pub server_ip : List ℕ
    pub port : ℤ

  -- One option of getopt_long with its argument, what strtod makes of it, and what atoi does.
  unfoldable pub set_option : ℕ → List ℕ → d.Double → ℤ → Globals → Globals
  set_option c optarg number whole g =
      if c == b'l'
      then record g { gps_lat = number }
      else if c == b'o'
      then record g { gps_long = number }
      else if c == b'a'
      then record g { gps_alt = number }
      else if c == b's'
      then record g { server_ip = optarg }
      else if c == b'p'
      then record g { port = whole }
      else g

  -- long_max, lat_max and alt_max, which are set once.
  pub record Limits : Type 0 where
    pub long_max : ℤ
    pub lat_max : ℤ
    pub alt_max : ℤ

  unfoldable pub limits : Globals → Limits
  unfolding clamp
  limits g = record {
    long_max = clamp (negsuc 179) (pos 180) (d.to_int (d.plus g.gps_long (d.of_int (pos 1))));
    lat_max = clamp (negsuc 89) (pos 90) (d.to_int (d.plus g.gps_lat (d.of_int (pos 1))));
    alt_max = clamp (negsuc 399) (pos 8848) (d.to_int (d.plus g.gps_alt (d.of_int (pos 1000))));
  }

  -- A coordinate after one round.
  unfoldable pub walk : d.Double → ℤ → d.Double → d.Double
  walk step max v = let v1 = d.plus v step in if d.below (d.of_int max) v1 then d.of_int max else v1

  unfoldable pub move : Limits → Globals → Globals
  unfolding walk
  move m g = record g {
    gps_long = walk d.small_step m.long_max g.gps_long;
    gps_lat = walk d.small_step m.lat_max g.gps_lat;
    gps_alt = walk (d.of_int (pos 1)) m.alt_max g.gps_alt;
  }

  -- The text that is handed to do_geo_fix.
  unfoldable pub lat_long : Globals → List ℕ
  lat_long g = joined (
      d.print_f 5 g.gps_long
      ∷ codes " "
      ∷ d.print_f 5 g.gps_lat
      ∷ codes " "
      ∷ d.print_f 1 g.gps_alt
      ∷ codes " 5 6"
      ∷ [])

  -- A round of the thread up to the write.
  unfoldable pub round : Option ℕ → Limits → Globals → Globals × Option (List ℕ)
  unfolding move lat_long do_geo_fix
  round clock m g = let g1 = move m g in (g1, do_geo_fix d clock (lat_long g1))

  -- No coordinate is past its limit.
  pub record IsWithin (m : Limits) (g : Globals) : Type 0 where
    pub long_fits : d.below (d.of_int m.long_max) g.gps_long ≡ false
    pub lat_fits : d.below (d.of_int m.lat_max) g.gps_lat ≡ false
    pub alt_fits : d.below (d.of_int m.alt_max) g.gps_alt ≡ false

  module _ (irreflexive : (x : d.Double) → d.below x x ≡ false) where
    walk-fits :
        (step : d.Double) (max : ℤ) (v : d.Double)
        → d.below (d.of_int max) (walk step max v) ≡ false
    unfolding walk
    walk-fits step max v = elim (Bool-cases (d.below (d.of_int max) (d.plus v step))) [
      | inl past ↦ rw (past, walk) (irreflexive (d.of_int max))
      | inr before ↦ rw (before, walk) before
    ]

    -- If no number is below itself, then after each round no coordinate is past its limit, wherever it
    -- was before.
    pub round-IsWithin :
        (clock : Option ℕ) (m : Limits) (g : Globals) → IsWithin m (round clock m g).0
    unfolding round move
    round-IsWithin clock m g = record {
      long_fits = walk-fits d.small_step m.long_max g.gps_long;
      lat_fits = walk-fits d.small_step m.lat_max g.gps_lat;
      alt_fits = walk-fits (d.of_int (pos 1)) m.alt_max g.gps_alt;
    }
