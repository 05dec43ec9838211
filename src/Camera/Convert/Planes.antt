-- ===== src/Camera/Convert/Planes.antt =====
-- The chroma planes after all rows of yuyv422_to_yuv420sp
-- (host_camera_service/host_camera_server.cc).
use host_camera_server.Base.{
  ℕ, zero, suc, ◌+◌, ◌*◌, ◌/◌, ◌%◌, ◌≤◌, ◌<◌, ◌≡◌, refl, List, Bool, get_or, length, arith,
}
use host_camera_server.Camera.Convert.{Cursor, rows, yuyv422_to_yuv420sp}
use host_camera_server.Camera.Convert.Luma.{Stands, columns-Stands}
use host_camera_server.Camera.Convert.Chroma.{
  second_offset, third_offset, pair, Filled, columns-Filled_even, columns-Filled_odd,
}

-- Two rows at a time: an odd one, which fills, and an even one, which does not.
rows-Filled :
    (bufsrc : List ℕ) (size total quarter half left t k s e i : ℕ) (flipuv : Bool) (c : Cursor)
    → left % 2 ≡ 0
    → i % 2 ≡ 1
    → half % 2 ≡ 0
    → k ≡ t * half
    → s ≡ 2 * (t * half)
    → 2 * e ≡ s + left * half
    → size ≡ 4 * quarter
    → 2 * (s + left * half) ≤ size
    → size + 2 * quarter ≤ total
    → Stands bufsrc size total s c
    → Filled bufsrc size quarter half k flipuv c
    → Filled bufsrc size quarter half e flipuv (rows bufsrc left (2 * half) flipuv i c)
unfolding rows
rows-Filled bufsrc size total quarter half zero t k s e i flipuv c pairs odd even at from end four
      room fit h f =
    let same : e ≡ k = omega arith in rw same f
rows-Filled bufsrc size total quarter half (suc zero) t k s e i flipuv c pairs odd even at from end
      four room fit h f =
    absurd (omega arith)
rows-Filled bufsrc size total quarter half (suc (suc left)) t k s e i flipuv c pairs odd even at
      from end four room fit h f =
    let width : 2 * half / 2 ≡ half = omega arith in
    let stands1 =
      columns-Stands bufsrc size total half s (s + half) 1 i flipuv c h (omega arith) refl
        (omega arith) (omega arith) in
    let filled1 =
      columns-Filled_odd bufsrc size total quarter half half t 0 k s 1 i flipuv c (omega arith)
        (omega arith) (omega arith) h f (omega arith) odd (omega arith) (omega arith) fit in
    let stands2 =
      columns-Stands bufsrc size total half (s + half) (s + half + half) 1 (i + 1) flipuv _ stands1
        (omega arith) refl (omega arith) (omega arith) in
    let filled2 =
      columns-Filled_even bufsrc size total quarter half half (s + half) 1 (i + 1) (k + half) flipuv
        _ stands1 filled1 (omega arith) (omega arith) (omega arith) (omega arith) in
    rw width (
      rows-Filled bufsrc size total quarter half left (t + 1) (k + half) (s + half + half) e
        (i + 1 + 1) flipuv _ (omega arith) (omega arith) even (omega arith) (omega arith)
        (omega arith) four (omega arith) fit stands2 filled2)

chroma_of_half :
    (bufsrc dst_buf : List ℕ) (half r : ℕ) (flipuv : Bool) (m : ℕ)
    → half % 2 ≡ 0
    → 2 * r * (2 * half) + 2 * r * (2 * half) / 2 ≤ length dst_buf
    → m < 2 * r * (2 * half) / 4
    → (get_or
          (yuyv422_to_yuv420sp bufsrc dst_buf (2 * half) (2 * r) flipuv)
          (2 * r * (2 * half) + m)
          0
        ≡ get_or bufsrc (4 * pair half m + second_offset flipuv) 0)
      × (get_or
            (yuyv422_to_yuv420sp bufsrc dst_buf (2 * half) (2 * r) flipuv)
            (2 * r * (2 * half) + 2 * r * (2 * half) / 4 + m)
            0
          ≡ get_or bufsrc (4 * pair half m + third_offset flipuv) 0)
unfolding yuyv422_to_yuv420sp
chroma_of_half bufsrc dst_buf half r flipuv m even room lt =
    let size = 2 * r * (2 * half) in
    let plane : size ≡ 4 * (r * half) = omega arith in
    let start : Cursor = record {
      dst = dst_buf;
      dst_p1 = 0;
      dst_p2 = size;
      dst_p3 = size + size / 4;
      src = 0;
    } in
    let begun : Stands bufsrc size (length dst_buf) 0 start = record {
      source = omega arith;
      behind = omega arith;
      apart2 = omega arith;
      apart3 = omega arith;
      whole = refl;
      copied = λ n h. absurd (omega arith);
    } in
    let empty : Filled bufsrc size (size / 4) half 0 flipuv start = record {
      at2 = omega arith;
      at3 = omega arith;
      second = λ n h. absurd (omega arith);
      third = λ n h. absurd (omega arith);
    } in
    let end =
      rows-Filled bufsrc size (length dst_buf) (size / 4) half (2 * r) 0 0 0 (r * half) 1 flipuv
        start (omega arith) (omega arith) even (omega arith) (omega arith) (omega arith)
        (omega arith) (omega arith) (omega arith) begun empty in
    (end.second m (omega arith), end.third m (omega arith))

chroma_of :
    (bufsrc dst_buf : List ℕ) (half r width height : ℕ) (flipuv : Bool) (m : ℕ)
    → width ≡ 2 * half
    → height ≡ 2 * r
    → half % 2 ≡ 0
    → height * width + height * width / 2 ≤ length dst_buf
    → m < height * width / 4
    → (get_or (yuyv422_to_yuv420sp bufsrc dst_buf width height flipuv) (height * width + m) 0
        ≡ get_or bufsrc (4 * pair half m + second_offset flipuv) 0)
      × (get_or
            (yuyv422_to_yuv420sp bufsrc dst_buf width height flipuv)
            (height * width + height * width / 4 + m)
            0
          ≡ get_or bufsrc (4 * pair half m + third_offset flipuv) 0)
chroma_of bufsrc dst_buf half r width height flipuv m wide tall even room lt =
    rw (wide, tall)
      (chroma_of_half bufsrc dst_buf half r flipuv m even (rw (wide, tall) at room)
        (rw (wide, tall) at lt))

-- If the width is a multiple of 4, the height is even and the buffer has room for the three planes:
-- byte `m` of the second plane is the V field, and byte `m` of the third plane the U field, of pixel
-- pair number m + m / (width / 2) * (width / 2), which is pair `m` if only the first, the third, the
-- fifth row and so on are counted; if `flipuv` is set, U and V change places.
pub yuyv422_to_yuv420sp-chroma :
    (bufsrc dst_buf : List ℕ) (width height : ℕ) (flipuv : Bool) (m : ℕ)
    → width % 4 ≡ 0
    → height % 2 ≡ 0
    → height * width + height * width / 2 ≤ length dst_buf
    → m < height * width / 4
    → (get_or (yuyv422_to_yuv420sp bufsrc dst_buf width height flipuv) (height * width + m) 0
        ≡ get_or bufsrc (4 * pair (width / 2) m + second_offset flipuv) 0)
      × (get_or
            (yuyv422_to_yuv420sp bufsrc dst_buf width height flipuv)
            (height * width + height * width / 4 + m)
            0
          ≡ get_or bufsrc (4 * pair (width / 2) m + third_offset flipuv) 0)
yuyv422_to_yuv420sp-chroma bufsrc dst_buf width height flipuv m four two room lt =
    chroma_of bufsrc dst_buf (width / 2) (height / 2) width height flipuv m (omega arith)
      (omega arith) (omega arith) room lt
