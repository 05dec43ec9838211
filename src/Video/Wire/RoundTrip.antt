-- ===== src/Video/Wire/RoundTrip.antt =====
-- What is written to the socket is read back.
use host_camera_server.Base.{
  ℕ, sym, bytes_of_words-append, get_or-past, ◌*◌, ◌<◌, ◌≡◌, refl, List, [], ◌∷◌, ◌++◌, arith,
  length, IsWord, bytes_of_words, words_of_bytes-bytes_of_words, length-bytes_of_words,
}
use host_camera_server.Video.Wire.{
  PacketType, request_capability, other, named, type_code, packet_type, Header, header_bytes,
  read_header, header_size, CameraInfo, info_words, info_bytes, camera_info_size,
}

-- A type that the protocol names, or a number that no name has.
abbrev pub IsPacketType : PacketType → Type 0
IsPacketType (other n) = (5 < n) × IsWord n
IsPacketType _ = Unit {0}

packet_type-type_code : (t : PacketType) → IsPacketType t → packet_type (type_code t) ≡ t
unfolding packet_type type_code
packet_type-type_code (other n) h = get_or-past named n (other n) (omega arith)
packet_type-type_code request_capability h = refl
packet_type-type_code _ h = refl

type_code-IsWord : (t : PacketType) → IsPacketType t → IsWord (type_code t)
unfolding type_code
type_code-IsWord (other n) h = h.1
type_code-IsWord request_capability h = omega arith
type_code-IsWord _ h = omega arith

-- A header is eight bytes, and a reader that takes those gets its type and size back, whatever
-- follows, if the size fits in a uint32_t.
pub read_header-header_bytes :
    (h : Header) (rest : List ℕ)
    → IsPacketType h.type
    → IsWord h.size
    → (read_header (header_bytes h ++ rest) ≡ h) × (length (header_bytes h) ≡ header_size)
unfolding read_header header_bytes
read_header-header_bytes h rest t s =
    let ws = type_code h.type ∷ h.size ∷ [] in
    let back = words_of_bytes-bytes_of_words ws rest (type_code-IsWord h.type t, (s, tt)) in
    (rw (back, packet_type-type_code h.type t), length-bytes_of_words ws)

infos_words : List CameraInfo → List ℕ
infos_words [] = []
infos_words (i ∷ is) = info_words i ++ infos_words is

info_bytes-words : (is : List CameraInfo) → info_bytes is ≡ bytes_of_words (infos_words is)
unfolding info_bytes infos_words
info_bytes-words [] = unfold bytes_of_words in refl
info_bytes-words (i ∷ is) =
    rw (info_bytes-words is) (sym (bytes_of_words-append (info_words i) (infos_words is)))

length-infos_words : (is : List CameraInfo) → length (infos_words is) ≡ 8 * length is
unfolding infos_words info_words
length-infos_words [] = omega arith
length-infos_words (i ∷ is) = omega (arith, length-infos_words is)

-- The array of `n` camera_info_t is n * sizeof(camera_info_t) bytes, the size that SetCameraCapabilty
-- announces.
pub length-info_bytes :
    (is : List CameraInfo) → length (info_bytes is) ≡ length is * camera_info_size
length-info_bytes is =
    rw (info_bytes-words is)
      (omega (arith, length-bytes_of_words (infos_words is), length-infos_words is))
