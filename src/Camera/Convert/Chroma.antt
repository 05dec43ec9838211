-- ===== src/Camera/Convert/Chroma.antt =====
-- The chroma planes that yuyv422_to_yuv420sp of host_camera_service/host_camera_server.cc writes.
use native.Mathlib.Nat.{mul-add-div_right, div-eq_of_lt}
use host_camera_server.Base.{
  ℕ, zero, suc, ◌+◌, ◌*◌, ◌/◌, ◌%◌, ◌≤◌, ◌<◌, ◌≡◌, refl, List, Bool, true, false, inl, inr, set,
  get_or, get_or-set_ne, length, length-set, arith, ◌==◌, if◌then◌else◌, Bool-cases, ap, ◌∙◌, sym,
}
use host_camera_server.Camera.Convert.{Cursor, y0, y1, luma, chroma, pixels, columns}
use host_camera_server.Camera.Convert.Luma.{
  Stands, get_or-set, luma-dst, luma-rest, length-set-set, pixels-Stands,
}

-- Where the chroma bytes of the second and of the third plane stand in a pixel pair.
abbrev pub second_offset : Bool → ℕ
second_offset flipuv = if flipuv then 3 else 1

abbrev pub third_offset : Bool → ℕ
third_offset flipuv = if flipuv then 1 else 3

-- The pixel pair that chroma byte `m` is from, if a row has `half` pairs: every second row counts.
abbrev pub pair : ℕ → ℕ → ℕ
pair half m = m + m / half * half

pair-row : (half t col : ℕ) → col < half → pair half (t * half + col) ≡ 2 * (t * half) + col
pair-row half t col h =
    let quotient : (t * half + col) / half ≡ t =
      mul-add-div_right (omega arith) t col ∙ (rw (div-eq_of_lt h) (omega arith)) in
    rw quotient (omega arith)

-- After `k` chroma bytes of each plane, of `quarter` bytes, behind a luma plane of `size` bytes.
pub record Filled (bufsrc : List ℕ) (size quarter half k : ℕ) (flipuv : Bool) (c : Cursor)
    : Type 0 where
  pub at2 : c.dst_p2 ≡ size + k
  pub at3 : c.dst_p3 ≡ size + quarter + k
  pub second :
      (m : ℕ)
      → m < k
      → get_or c.dst (size + m) 0 ≡ get_or bufsrc (4 * pair half m + second_offset flipuv) 0
  pub third :
      (m : ℕ)
      → m < k
      → get_or c.dst (size + quarter + m) 0
        ≡ get_or bufsrc (4 * pair half m + third_offset flipuv) 0

-- The luma stores stay in the luma plane.
luma-apart :
    (bufsrc : List ℕ) (size total s j n : ℕ) (c : Cursor)
    → Stands bufsrc size total s c
    → (j + s) % 2 ≡ 1
    → 2 * s + 1 < n
    → get_or (luma bufsrc j c).dst n 0 ≡ get_or c.dst n 0
luma-apart bufsrc size total s j n c h parity far = rw (luma-dst bufsrc size total s j c h parity) (
    get_or-set_ne (set c.dst (2 * s) (y0 bufsrc c)) (2 * s + 1) n (y1 bufsrc c) 0 (λ e. omega arith)
    ∙ get_or-set_ne c.dst (2 * s) n (y0 bufsrc c) 0 (λ e. omega arith))

chroma-even :
    (bufsrc : List ℕ) (flipuv : Bool) (i : ℕ) (c : Cursor)
    → i % 2 ≡ 0
    → chroma bufsrc flipuv i c ≡ c
unfolding chroma
chroma-even bufsrc flipuv i c even =
    let e : (i % 2 == 0) ≡ true = ground arith in rw (e, chroma) refl

two_sets :
    (xs : List ℕ) (i j a b n : ℕ)
    → i < length xs
    → j < length xs
    → get_or (set (set xs i a) j b) n 0
      ≡ (if n == j then b else if n == i then a else get_or xs n 0)
two_sets xs i j a b n p q =
    rw (get_or-set (set xs i a) j b n (omega (arith, length-set xs i a)), get_or-set xs i a n p)
      refl

-- The chroma stores of an odd row.
chroma-odd :
    (bufsrc : List ℕ) (flipuv : Bool) (i n : ℕ) (c : Cursor)
    → i % 2 ≡ 1
    → c.dst_p2 < length c.dst
    → c.dst_p3 < length c.dst
    → (get_or (chroma bufsrc flipuv i c).dst n 0 ≡ (
        if n == c.dst_p3
        then get_or bufsrc (c.src + third_offset flipuv) 0
        else if n == c.dst_p2
        then get_or bufsrc (c.src + second_offset flipuv) 0
        else get_or c.dst n 0))
      × ((chroma bufsrc flipuv i c).dst_p2 ≡ c.dst_p2 + 1)
      × ((chroma bufsrc flipuv i c).dst_p3 ≡ c.dst_p3 + 1)
unfolding chroma
chroma-odd bufsrc true i n c odd p q =
    let e : (i % 2 == 0) ≡ false = ground arith in
    rw (e, chroma) (two_sets c.dst c.dst_p2 c.dst_p3 _ _ n p q, refl, refl)
chroma-odd bufsrc false i n c odd p q =
    let e : (i % 2 == 0) ≡ false = ground arith in
    rw (e, chroma) (two_sets c.dst c.dst_p2 c.dst_p3 _ _ n p q, refl, refl)

pixels-Filled_even :
    (bufsrc : List ℕ) (size total quarter half s j i k : ℕ) (flipuv : Bool) (c : Cursor)
    → Stands bufsrc size total s c
    → Filled bufsrc size quarter half k flipuv c
    → (j + s) % 2 ≡ 1
    → i % 2 ≡ 0
    → 2 * s + 1 < size
    → Filled bufsrc size quarter half k flipuv (pixels bufsrc flipuv i j c)
unfolding pixels
pixels-Filled_even bufsrc size total quarter half s j i k flipuv c h f parity even room =
    let (_, p2, p3, _) = luma-rest bufsrc size total s j c h parity in
    rw (pixels, chroma-even bufsrc flipuv i (luma bufsrc j c) even)
      (record {
        at2 = p2 ∙ f.at2;
        at3 = p3 ∙ f.at3;
        second = λ m lt.
            luma-apart bufsrc size total s j (size + m) c h parity (omega arith) ∙ f.second m lt;
        third = λ m lt.
            luma-apart bufsrc size total s j (size + quarter + m) c h parity (omega arith)
            ∙ f.third m lt;
      })

pixels-Filled_odd :
    (bufsrc : List ℕ) (size total quarter half s j i k : ℕ) (flipuv : Bool) (c : Cursor)
    → Stands bufsrc size total s c
    → Filled bufsrc size quarter half k flipuv c
    → (j + s) % 2 ≡ 1
    → i % 2 ≡ 1
    → 2 * s + 1 < size
    → pair half k ≡ s
    → k < quarter
    → size + 2 * quarter ≤ total
    → Filled bufsrc size quarter half (k + 1) flipuv (pixels bufsrc flipuv i j c)
unfolding pixels
pixels-Filled_odd bufsrc size total quarter half s j i k flipuv c h f parity odd room here low fit =
    let (_, p2, p3, at) = luma-rest bufsrc size total s j c h parity in
    let l = luma bufsrc j c in
    let long : length l.dst ≡ total =
      ap length (luma-dst bufsrc size total s j c h parity)
      ∙ (length-set-set c.dst (2 * s) (2 * s + 1) _ _ ∙ h.whole) in
    let in2 : l.dst_p2 < length l.dst = omega (arith, p2, f.at2) in
    let in3 : l.dst_p3 < length l.dst = omega (arith, p3, f.at3) in
    let from : l.src ≡ 4 * pair half k = omega (arith, at, h.source, here) in
    let (_, n2, n3) = chroma-odd bufsrc flipuv i 0 l odd in2 in3 in
    record {
      at2 = omega (arith, n2, p2, f.at2);
      at3 = omega (arith, n3, p3, f.at3);
      second = λ m lt.
          (chroma-odd bufsrc flipuv i (size + m) l odd in2 in3).0 ∙ elim (Bool-cases (m == k)) [
            | inl e ↦
                let same : m ≡ k = ground arith in
                let no : (size + m == l.dst_p3) ≡ false = ground (arith, p3, f.at3) in
                let yes : (size + m == l.dst_p2) ≡ true = ground (arith, p2, f.at2) in
                rw (no, yes)
                  (ap (λ a. get_or bufsrc (a + second_offset flipuv) 0)
                    (from ∙ ap (λ a. 4 * pair half a) (sym same)))
            | inr e ↦
                let no : (size + m == l.dst_p3) ≡ false = ground (arith, p3, f.at3) in
                let past : (size + m == l.dst_p2) ≡ false = ground (arith, p2, f.at2) in
                rw (no, past)
                  (luma-apart bufsrc size total s j (size + m) c h parity (omega arith)
                    ∙ f.second m (ground arith))
          ];
      third = λ m lt.
          (chroma-odd bufsrc flipuv i (size + quarter + m) l odd in2 in3).0
          ∙ elim (Bool-cases (m == k)) [
            | inl e ↦
                let same : m ≡ k = ground arith in
                let yes : (size + quarter + m == l.dst_p3) ≡ true = ground (arith, p3, f.at3) in
                rw yes (
                  ap (λ a. get_or bufsrc (a + third_offset flipuv) 0)
                    (from ∙ ap (λ a. 4 * pair half a) (sym same)))
            | inr e ↦
                let no : (size + quarter + m == l.dst_p3) ≡ false = ground (arith, p3, f.at3) in
                let past : (size + quarter + m == l.dst_p2) ≡ false = ground (arith, p2, f.at2) in
                rw (no, past)
                  (luma-apart bufsrc size total s j (size + quarter + m) c h parity (omega arith)
                    ∙ f.third m (ground arith))
          ];
    }

pub columns-Filled_even :
    (bufsrc : List ℕ) (size total quarter half left s j i k : ℕ) (flipuv : Bool) (c : Cursor)
    → Stands bufsrc size total s c
    → Filled bufsrc size quarter half k flipuv c
    → (j + s) % 2 ≡ 1
    → i % 2 ≡ 0
    → 2 * (s + left) ≤ size
    → size ≤ total
    → Filled bufsrc size quarter half k flipuv (columns bufsrc left flipuv i j c)
unfolding columns
columns-Filled_even bufsrc size total quarter half zero s j i k flipuv c h f parity even room fit =
    f
columns-Filled_even bufsrc size total quarter half (suc left) s j i k flipuv c h f parity even room
      fit =
    columns-Filled_even bufsrc size total quarter half left (s + 1) (j + 1) i k flipuv _
      (pixels-Stands bufsrc size total s j i flipuv c h parity (omega arith) fit)
      (pixels-Filled_even bufsrc size total quarter half s j i k flipuv c h f parity even
        (omega arith))
      (omega arith) even (omega arith) fit

pub columns-Filled_odd :
    (bufsrc : List ℕ) (size total quarter half left t col k s j i : ℕ) (flipuv : Bool) (c : Cursor)
    → col + left ≡ half
    → k ≡ t * half + col
    → s ≡ 2 * (t * half) + col
    → Stands bufsrc size total s c
    → Filled bufsrc size quarter half k flipuv c
    → (j + s) % 2 ≡ 1
    → i % 2 ≡ 1
    → 2 * (s + left) ≤ size
    → k + left ≤ quarter
    → size + 2 * quarter ≤ total
    → Filled bufsrc size quarter half (k + left) flipuv (columns bufsrc left flipuv i j c)
unfolding columns
columns-Filled_odd bufsrc size total quarter half zero t col k s j i flipuv c row at from h f parity
      odd room low fit =
    let same : k + 0 ≡ k = omega arith in rw same f
columns-Filled_odd bufsrc size total quarter half (suc left) t col k s j i flipuv c row at from h f
      parity odd room low fit =
    let here : pair half k ≡ s = rw at (pair-row half t col (omega arith) ∙ sym from) in
    let same : k + suc left ≡ k + 1 + left = omega arith in
    rw same (
      columns-Filled_odd bufsrc size total quarter half left t (col + 1) (k + 1) (s + 1) (j + 1) i
        flipuv _ (omega arith) (omega arith) (omega arith)
        (pixels-Stands bufsrc size total s j i flipuv c h parity (omega arith) (omega arith))
        (pixels-Filled_odd bufsrc size total quarter half s j i k flipuv c h f parity odd
          (omega arith) here (omega arith) fit)
        (omega arith) odd (omega arith) (omega arith) fit)
