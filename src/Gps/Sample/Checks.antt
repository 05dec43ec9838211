-- ===== src/Gps/Sample/Checks.antt =====
-- Which arguments do_geo_fix of host_camera_service/virtual_gps_receiver_sample.cc takes.
use host_camera_server.Base.{
  ℕ, zero, suc, ◌≤◌, ◌≡◌, sym, inl, inr, List, [], ◌∷◌, Bool, true, false, ◌||◌, not, ℤ, pos,
  negsuc, is_neg, pos_part, Option, some, arith, ltb, leb, length, Option-cases, Bool-cases,
}
use host_camera_server.Gps.Sample.{
  Doubles, skip_blanks, checked_count, tokenize, satellites, sentence, do_geo_fix,
}

-- A number of satellites.
abbrev pub InSky : ℤ → Type 0
InSky (pos n) = (1 ≤ n) × (n ≤ 12)
InSky (negsuc n) = ⊥

ranged : (n : ℤ) → is_neg n || ltb (pos_part n) 1 || ltb 12 (pos_part n) ≡ false → InSky n
ranged (pos n) e = ground arith
ranged (negsuc n) e = absurd cc

-- A test that fails before the others are tried.
rejects :
    (ok : Bool) (n : ℤ)
    → not ok || is_neg n || ltb (pos_part n) 1 || ltb 12 (pos_part n) ≡ false
    → InSky n
rejects true n e = ranged n e
rejects false n e = absurd cc

module _ (d : Doubles) where
  -- No more than the free entries are written.
  pub tokenize-length :
      (left : ℕ) (p : List ℕ) (vals : List d.Double)
      → tokenize d left p ≡ some vals
      → length vals ≤ left
  unfolding tokenize
  tokenize-length zero p vals e = ground arith
  tokenize-length (suc left) [] vals e = ground arith
  tokenize-length (suc left) (c ∷ cs) vals e = elim (Option-cases (d.strtod (c ∷ cs))) [
    | inl bad ↦ absurd (ground (arith, rw (bad, tokenize) at e))
    | inr (q, good) ↦ elim (Option-cases (tokenize d left (skip_blanks q.1))) [
      | inl stuck ↦ absurd (ground (arith, rw (good, stuck, tokenize) at e))
      | inr (vs, more) ↦
          ground
            (arith, rw (good, more, tokenize) at e, tokenize-length left (skip_blanks q.1) vs more)
    ]
  ]

  checked_count-InSky : (given : d.Double) (n : ℤ) → checked_count d given ≡ some n → InSky n
  unfolding checked_count
  checked_count-InSky given n e =
      let m = d.to_int given in
      let ok = d.equals (d.of_int m) given in
      elim (Bool-cases (not ok || is_neg m || ltb (pos_part m) 1 || ltb 12 (pos_part m))) [
        | inl bad ↦ absurd (ground (arith, rw (bad, checked_count) at e))
        | inr good ↦
            let same : m ≡ n = ground (arith, rw (good, checked_count) at e) in
            rw (sym same) (rejects ok m good)
      ]

  satellites-InSky : (params : List d.Double) (n : ℤ) → satellites d params ≡ some n → InSky n
  unfolding satellites
  satellites-InSky params n e = elim (Bool-cases (leb 4 (length params))) [
    | inl given ↦ checked_count-InSky _ n (rw (given, satellites) at e)
    | inr absent ↦
        let one : pos 1 ≡ n = ground (arith, rw (absent, satellites) at e) in
        rw (sym one) (omega arith)
  ]

  -- What do_geo_fix has checked when it writes a sentence.
  pub record Accepted (clock : Option ℕ) (args text : List ℕ) : Type 0 where
    pub params : List d.Double
    pub count : ℤ
    pub read : tokenize d 5 args ≡ some params
    pub enough : (2 ≤ length params) × (length params ≤ 5)
    pub in_sky : InSky count
    pub written : text ≡ sentence d clock params count

  -- If do_geo_fix writes a sentence, then its text was a list of two to five numbers, or began with
  -- five, the number of satellites is an integer from 1 to 12, and the sentence is the one for them.
  pub do_geo_fix-Accepted :
      (clock : Option ℕ) (args text : List ℕ)
      → do_geo_fix d clock args ≡ some text
      → Accepted clock args text
  unfolding do_geo_fix
  do_geo_fix-Accepted clock args text e = elim (Option-cases (tokenize d 5 args)) [
    | inl bad ↦ absurd (ground (arith, rw (bad, do_geo_fix) at e))
    | inr (params, good) ↦ elim (Bool-cases (ltb (length params) 2)) [
      | inl few ↦ absurd (ground (arith, rw (good, few, do_geo_fix) at e))
      | inr enough ↦ elim (Option-cases (satellites d params)) [
        | inl wrong ↦ absurd (ground (arith, rw (good, enough, wrong, do_geo_fix) at e))
        | inr (n, right) ↦ record {
          params = params;
          count = n;
          read = good;
          enough = (ground (arith, enough), tokenize-length 5 args params good);
          in_sky = satellites-InSky params n right;
          written = ground (arith, rw (good, enough, right, do_geo_fix) at e);
        }
      ]
    ]
  ]
