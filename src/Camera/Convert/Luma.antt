-- ===== src/Camera/Convert/Luma.antt =====
-- The luma plane that yuyv422_to_yuv420sp of host_camera_service/host_camera_server.cc writes.
use host_camera_server.Base.{
  ℕ, zero, suc, ◌+◌, ◌*◌, ◌/◌, ◌%◌, ◌≤◌, ◌<◌, ◌≡◌, refl, List, [], ◌∷◌, Bool, inl, inr, set, get_or,
  get_or-set_ne, length, length-set, arith, ◌==◌, if◌then◌else◌, Bool-cases, ap, ◌∙◌,
}
use host_camera_server.Camera.Convert.{
  Cursor, y0, y1, luma, chroma, pixels, columns, rows, yuyv422_to_yuv420sp,
}

-- After `s` pixel pairs: where the pointers are, and that the luma bytes so far are those of the
-- source, every second byte; `size` is the size of the luma plane.
pub record Stands (bufsrc : List ℕ) (size total s : ℕ) (c : Cursor) : Type 0 where
  pub source : c.src ≡ 4 * s
  pub behind : c.dst_p1 + 2 * (s % 2) ≡ 2 * s
  pub apart2 : size ≤ c.dst_p2
  pub apart3 : size ≤ c.dst_p3
  pub whole : length c.dst ≡ total
  pub copied : (n : ℕ) → n < 2 * s → get_or c.dst n 0 ≡ get_or bufsrc (2 * n) 0

pub get_or-set :
    (xs : List ℕ) (i v n : ℕ)
    → i < length xs
    → get_or (set xs i v) n 0 ≡ (if n == i then v else get_or xs n 0)
get_or-set [] i v n h = elim h [ ]
get_or-set (x ∷ xs) zero v zero h = refl
get_or-set (x ∷ xs) zero v (suc n) h = ground arith
get_or-set (x ∷ xs) (suc i) v zero h = ground arith
get_or-set (x ∷ xs) (suc i) v (suc n) h = ground (arith, get_or-set xs i v n)

get_or-set-set :
    (xs : List ℕ) (k a b n : ℕ)
    → k + 1 < length xs
    → get_or (set (set xs k a) (k + 1) b) n 0
      ≡ (if n == k + 1 then b else if n == k then a else get_or xs n 0)
get_or-set-set xs k a b n h =
    rw
      (
        get_or-set (set xs k a) (k + 1) b n (omega (arith, length-set xs k a)),
        get_or-set xs k a n (omega arith),
      )
      refl

pub luma-dst :
    (bufsrc : List ℕ) (size total s j : ℕ) (c : Cursor)
    → Stands bufsrc size total s c
    → (j + s) % 2 ≡ 1
    → (luma bufsrc j c).dst ≡ set (set c.dst (2 * s) (y0 bufsrc c)) (2 * s + 1) (y1 bufsrc c)
unfolding luma
luma-dst bufsrc size total s j c h parity = elim (Bool-cases (j % 2 == 0)) [
  | inl e ↦
      let here : c.dst_p1 + 2 ≡ 2 * s = ground (arith, h.behind) in
      let next : c.dst_p1 + 3 ≡ 2 * s + 1 = omega arith in rw (e, luma, here, next)
  | inr e ↦ let here : c.dst_p1 ≡ 2 * s = ground (arith, h.behind) in rw (e, luma, here)
]

pub luma-rest :
    (bufsrc : List ℕ) (size total s j : ℕ) (c : Cursor)
    → Stands bufsrc size total s c
    → (j + s) % 2 ≡ 1
    → ((luma bufsrc j c).dst_p1 + 2 * ((s + 1) % 2) ≡ 2 * (s + 1))
      × ((luma bufsrc j c).dst_p2 ≡ c.dst_p2)
      × ((luma bufsrc j c).dst_p3 ≡ c.dst_p3)
      × ((luma bufsrc j c).src ≡ c.src)
unfolding luma
luma-rest bufsrc size total s j c h parity = ground (arith, h.behind)

pub get_or-set_apart :
    (xs : List ℕ) (i j a b n : ℕ)
    → n < i
    → n < j
    → get_or (set (set xs i a) j b) n 0 ≡ get_or xs n 0
get_or-set_apart xs i j a b n p q =
    get_or-set_ne (set xs i a) j n b 0 (λ e. omega arith)
    ∙ get_or-set_ne xs i n a 0 (λ e. omega arith)

chroma-apart :
    (bufsrc : List ℕ) (flipuv : Bool) (i : ℕ) (c : Cursor) (n : ℕ)
    → n < c.dst_p2
    → n < c.dst_p3
    → get_or (chroma bufsrc flipuv i c).dst n 0 ≡ get_or c.dst n 0
unfolding chroma
chroma-apart bufsrc flipuv i c n p q = elim (Bool-cases (i % 2 == 0)) [
  | inl e ↦ rw (e, chroma) refl
  | inr e ↦ rw (e, chroma) (get_or-set_apart c.dst c.dst_p2 c.dst_p3 _ _ n p q)
]

pub length-set-set : (xs : List ℕ) (i j a b : ℕ) → length (set (set xs i a) j b) ≡ length xs
length-set-set xs i j a b = length-set (set xs i a) j b ∙ length-set xs i a

pub chroma-rest :
    (bufsrc : List ℕ) (flipuv : Bool) (i : ℕ) (c : Cursor)
    → ((chroma bufsrc flipuv i c).dst_p1 ≡ c.dst_p1)
      × (c.dst_p2 ≤ (chroma bufsrc flipuv i c).dst_p2)
      × (c.dst_p3 ≤ (chroma bufsrc flipuv i c).dst_p3)
      × ((chroma bufsrc flipuv i c).src ≡ c.src)
unfolding chroma
chroma-rest bufsrc flipuv i c = ground arith

pub length-chroma :
    (bufsrc : List ℕ) (flipuv : Bool) (i : ℕ) (c : Cursor)
    → length (chroma bufsrc flipuv i c).dst ≡ length c.dst
unfolding chroma
length-chroma bufsrc flipuv i c = elim (Bool-cases (i % 2 == 0)) [
  | inl e ↦ rw (e, chroma) refl
  | inr e ↦ rw (e, chroma) (length-set-set c.dst c.dst_p2 c.dst_p3 _ _)
]

copied-pair :
    (bufsrc : List ℕ) (size total s n : ℕ) (c : Cursor)
    → Stands bufsrc size total s c
    → n < 2 * (s + 1)
    → (if n == 2 * s + 1 then y1 bufsrc c else if n == 2 * s then y0 bufsrc c else get_or c.dst n 0)
      ≡ get_or bufsrc (2 * n) 0
copied-pair bufsrc size total s n c h lt = elim (Bool-cases (n == 2 * s + 1)) [
  | inl e ↦ rw e (ap (λ k. get_or bufsrc k 0) (ground (arith, h.source)))
  | inr e ↦ elim (Bool-cases (n == 2 * s)) [
    | inl f ↦ rw (e, f) (ap (λ k. get_or bufsrc k 0) (ground (arith, h.source)))
    | inr f ↦ rw (e, f) (h.copied n (ground arith))
  ]
]

-- The luma bytes after a pixel pair.
pixels-luma :
    (bufsrc : List ℕ) (size total s j i n : ℕ) (flipuv : Bool) (c : Cursor)
    → Stands bufsrc size total s c
    → (j + s) % 2 ≡ 1
    → 2 * s + 1 < size
    → size ≤ total
    → n < 2 * (s + 1)
    → get_or (chroma bufsrc flipuv i (luma bufsrc j c)).dst n 0 ≡ get_or bufsrc (2 * n) 0
pixels-luma bufsrc size total s j i n flipuv c h parity room fit lt =
    let (_, p2, p3, _) = luma-rest bufsrc size total s j c h parity in
    chroma-apart bufsrc flipuv i (luma bufsrc j c) n (omega (arith, p2, h.apart2))
      (omega (arith, p3, h.apart3))
    ∙ rw (luma-dst bufsrc size total s j c h parity) (
        get_or-set-set c.dst (2 * s) (y0 bufsrc c) (y1 bufsrc c) n (omega (arith, h.whole))
        ∙ copied-pair bufsrc size total s n c h lt)

pub pixels-Stands :
    (bufsrc : List ℕ) (size total s j i : ℕ) (flipuv : Bool) (c : Cursor)
    → Stands bufsrc size total s c
    → (j + s) % 2 ≡ 1
    → 2 * s + 1 < size
    → size ≤ total
    → Stands bufsrc size total (s + 1) (pixels bufsrc flipuv i j c)
unfolding pixels
pixels-Stands bufsrc size total s j i flipuv c h parity room fit =
    let (p1, p2, p3, at) = luma-rest bufsrc size total s j c h parity in
    let (q1, q2, q3, at') = chroma-rest bufsrc flipuv i (luma bufsrc j c) in
    record {
      source = omega (arith, at, at', h.source);
      behind = omega (arith, p1, q1);
      apart2 = omega (arith, p2, q2, h.apart2);
      apart3 = omega (arith, p3, q3, h.apart3);
      whole =
          length-chroma bufsrc flipuv i (luma bufsrc j c)
          ∙ (ap length (luma-dst bufsrc size total s j c h parity)
              ∙ (length-set-set c.dst (2 * s) (2 * s + 1) _ _ ∙ h.whole));
      copied = λ n lt. pixels-luma bufsrc size total s j i n flipuv c h parity room fit lt;
    }

pub columns-Stands :
    (bufsrc : List ℕ) (size total left s t j i : ℕ) (flipuv : Bool) (c : Cursor)
    → Stands bufsrc size total s c
    → (j + s) % 2 ≡ 1
    → t ≡ s + left
    → 2 * t ≤ size
    → size ≤ total
    → Stands bufsrc size total t (columns bufsrc left flipuv i j c)
unfolding columns
columns-Stands bufsrc size total zero s t j i flipuv c h parity end room fit =
    let same : t ≡ s = omega arith in rw same h
columns-Stands bufsrc size total (suc left) s t j i flipuv c h parity end room fit =
    columns-Stands bufsrc size total left (s + 1) t (j + 1) i flipuv _
      (pixels-Stands bufsrc size total s j i flipuv c h parity (omega arith) fit) (omega arith)
      (omega arith) room fit

rows-Stands :
    (bufsrc : List ℕ) (size total left s t i half : ℕ) (flipuv : Bool) (c : Cursor)
    → Stands bufsrc size total s c
    → s % 2 ≡ 0
    → half % 2 ≡ 0
    → t ≡ s + left * half
    → 2 * t ≤ size
    → size ≤ total
    → Stands bufsrc size total t (rows bufsrc left (2 * half) flipuv i c)
unfolding rows
rows-Stands bufsrc size total zero s t i half flipuv c h even even' end room fit =
    let same : t ≡ s = omega arith in rw same h
rows-Stands bufsrc size total (suc left) s t i half flipuv c h even even' end room fit =
    let row : 2 * half / 2 ≡ half = omega arith in
    rows-Stands bufsrc size total left (s + half) t (i + 1) half flipuv _
      (columns-Stands bufsrc size total (2 * half / 2) s (s + half) 1 i flipuv c h (omega arith)
        (omega arith) (omega arith) fit)
      (omega arith) even' (omega arith) room fit

luma_of_half :
    (bufsrc dst_buf : List ℕ) (half height : ℕ) (flipuv : Bool) (n : ℕ)
    → half % 2 ≡ 0
    → height * (2 * half) + height * (2 * half) / 2 ≤ length dst_buf
    → n < height * (2 * half)
    → (length (yuyv422_to_yuv420sp bufsrc dst_buf (2 * half) height flipuv) ≡ length dst_buf)
      × (get_or (yuyv422_to_yuv420sp bufsrc dst_buf (2 * half) height flipuv) n 0
          ≡ get_or bufsrc (2 * n) 0)
unfolding yuyv422_to_yuv420sp
luma_of_half bufsrc dst_buf half height flipuv n even room lt =
    let size = height * (2 * half) in
    let plane : size ≡ 2 * (height * half) = omega arith in
    let start : Cursor = record {
      dst = dst_buf;
      dst_p1 = 0;
      dst_p2 = size;
      dst_p3 = size + size / 4;
      src = 0;
    } in
    let begun : Stands bufsrc size (length dst_buf) 0 start = record {
      source = omega arith;
      behind = omega arith;
      apart2 = omega arith;
      apart3 = omega arith;
      whole = refl;
      copied = λ m h. absurd (omega arith);
    } in
    let end =
      rows-Stands bufsrc size (length dst_buf) height 0 (height * half) 1 half flipuv start begun
        (omega arith) even (omega arith) (omega arith) (omega arith) in
    (end.whole, end.copied n (omega arith))

-- If the width is a multiple of 4 and the buffer has room for the three planes, the conversion
-- leaves the buffer as long as it was, and byte `n` of its luma plane is byte `2 * n` of the packed
-- pixels, for every `n` of the plane; the chroma stores do not touch it.
pub yuyv422_to_yuv420sp-luma :
    (bufsrc dst_buf : List ℕ) (width height : ℕ) (flipuv : Bool) (n : ℕ)
    → width % 4 ≡ 0
    → height * width + height * width / 2 ≤ length dst_buf
    → n < height * width
    → (length (yuyv422_to_yuv420sp bufsrc dst_buf width height flipuv) ≡ length dst_buf)
      × (get_or (yuyv422_to_yuv420sp bufsrc dst_buf width height flipuv) n 0
          ≡ get_or bufsrc (2 * n) 0)
yuyv422_to_yuv420sp-luma bufsrc dst_buf width height flipuv n four room lt =
    let wide : 2 * (width / 2) ≡ width = omega arith in
    rw (← wide) (
      luma_of_half bufsrc dst_buf (width / 2) height flipuv n (omega arith) (rw wide room)
        (rw wide lt))
