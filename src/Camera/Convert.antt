-- ===== src/Camera/Convert.antt =====
-- yuyv422_to_yuv420sp of host_camera_service/host_camera_server.cc: packed pixels into three planes.
pub mod Luma
pub mod Chroma
pub mod Planes
use host_camera_server.Base.{
  ℕ, zero, suc, ◌+◌, ◌*◌, ◌/◌, ◌%◌, List, Bool, set, get_or, ◌==◌, if◌then◌else◌,
}

-- The destination buffer, and the pointers into it and into the source as byte offsets.
pub record Cursor : Type 0 where
  pub dst : List ℕ
  pub dst_p1 : ℕ
  pub dst_p2 : ℕ
  pub dst_p3 : ℕ
  pub src : ℕ

-- A store through a pointer.
abbrev pub store : ℕ → ℕ → Cursor → Cursor
store offset byte c = record c { dst = set c.dst offset byte }

module _ (bufsrc : List ℕ) where
  -- The fields of the pixel_yvuv that `src` points to.
  abbrev pub y0 : Cursor → ℕ
  y0 c = get_or bufsrc c.src 0

  abbrev pub v : Cursor → ℕ
  v c = get_or bufsrc (c.src + 1) 0

  abbrev pub y1 : Cursor → ℕ
  y1 c = get_or bufsrc (c.src + 2) 0

  abbrev pub u : Cursor → ℕ
  u c = get_or bufsrc (c.src + 3) 0

  -- The two luma bytes of a pixel pair; the pointer moves after every second pair.
  unfoldable pub luma : ℕ → Cursor → Cursor
  luma j c =
      if j % 2 == 0
      then (let c1 = store (c.dst_p1 + 3) (y1 c) (store (c.dst_p1 + 2) (y0 c) c) in
          record c1 { dst_p1 = c.dst_p1 + 4 })
      else store (c.dst_p1 + 1) (y1 c) (store c.dst_p1 (y0 c) c)

  -- The two chroma bytes, in odd rows.
  unfoldable pub chroma : Bool → ℕ → Cursor → Cursor
  chroma flipuv i c =
      if i % 2 == 0
      then c
      else (let first = if flipuv then u c else v c in
          let second = if flipuv then v c else u c in
          let c1 = store c.dst_p3 second (store c.dst_p2 first c) in
          record c1 { dst_p2 = c.dst_p2 + 1; dst_p3 = c.dst_p3 + 1 })

  -- The body of the inner loop.
  unfoldable pub pixels : Bool → ℕ → ℕ → Cursor → Cursor
  unfolding luma chroma
  pixels flipuv i j c = let c1 = chroma flipuv i (luma j c) in record c1 { src = c1.src + 4 }

  -- The inner loop, with the rounds left.
  unfoldable pub columns : ℕ → Bool → ℕ → ℕ → Cursor → Cursor
  columns zero flipuv i j c = c
  columns (suc left) flipuv i j c = columns left flipuv i (j + 1) (pixels flipuv i j c)

  -- The outer loop, with the rounds left.
  unfoldable pub rows : ℕ → ℕ → Bool → ℕ → Cursor → Cursor
  rows zero width flipuv i c = c
  rows (suc left) width flipuv i c =
      rows left width flipuv (i + 1) (columns (width / 2) flipuv i 1 c)

  -- The planes are `height * width` bytes, and two quarters of that.
  unfoldable pub yuyv422_to_yuv420sp : List ℕ → ℕ → ℕ → Bool → List ℕ
  yuyv422_to_yuv420sp dst_buf width height flipuv =
      (rows height width flipuv 1 (record {
        dst = dst_buf;
        dst_p1 = 0;
        dst_p2 = height * width;
        dst_p3 = height * width + height * width / 4;
        src = 0;
      })).dst
