-- ===== src/Base/Words.antt =====
-- Machine words: wrap-around, sign, bits, and the little-endian bytes of a struct's fields.
use Prim.Native.Nat.{ℕ, ◌+◌, ◌-◌, ◌*◌, ◌/◌, ◌%◌, ◌<◌}
use mathlib.Core.Path.{◌≡◌, refl}
use mathlib.Core.Bool.{Bool}
use mathlib.Core.List.{List, [], ◌∷◌, ◌++◌}
use native.Mathlib.Omega.{arith}
use host_camera_server.Base.Tests.{ltb, ◌==◌, if◌then◌else◌}
use host_camera_server.Base.Integers.{ℤ, pos, negsuc}
use host_camera_server.Base.Lists.{All, length}

abbrev pub u8 : ℕ → ℕ
u8 n = n % 256

abbrev pub u16 : ℕ → ℕ
u16 n = n % 65536

abbrev pub u32 : ℕ → ℕ
u32 n = n % 4294967296

abbrev pub u64 : ℕ → ℕ
u64 n = n % 18446744073709551616

-- The value of a 32-bit pattern read as an int32_t.
abbrev pub signed32 : ℕ → ℤ
signed32 w = if ltb w 2147483648 then pos w else negsuc (4294967295 - w)

-- The 32-bit pattern of an integer: a conversion to uint32_t.
abbrev pub pattern32 : ℤ → ℕ
pattern32 (pos n) = u32 n
pattern32 (negsuc n) = 4294967295 - u32 n

-- The bit of weight `m`, a power of two.
abbrev pub has_bit : ℕ → ℕ → Bool
has_bit x m = x / m % 2 == 1

abbrev pub IsByte : ℕ → Type 0
IsByte b = b < 256

-- The four bytes of a uint32_t, lowest first.
unfoldable pub bytes32 : ℕ → List ℕ
bytes32 n = n % 256 ∷ n / 256 % 256 ∷ n / 65536 % 256 ∷ n / 16777216 % 256 ∷ []

unfoldable pub word32 : ℕ → ℕ → ℕ → ℕ → ℕ
word32 a b c d = a + 256 * b + 65536 * c + 16777216 * d

pub word32-bytes32 :
    (n : ℕ)
    → n < 4294967296
    → word32 (n % 256) (n / 256 % 256) (n / 65536 % 256) (n / 16777216 % 256) ≡ n
unfolding word32
word32-bytes32 n h = omega arith

pub bytes32-IsByte : (n : ℕ) → All IsByte (bytes32 n)
unfolding bytes32
bytes32-IsByte n = omega arith

-- The bytes of an array of uint32_t, and the words that an array of bytes holds.
unfoldable pub bytes_of_words : List ℕ → List ℕ
unfolding bytes32
bytes_of_words [] = []
bytes_of_words (w ∷ ws) = bytes32 w ++ bytes_of_words ws

unfoldable pub words_of_bytes : List ℕ → List ℕ
unfolding word32
words_of_bytes (a ∷ b ∷ c ∷ d ∷ bs) = word32 a b c d ∷ words_of_bytes bs
words_of_bytes _ = []

abbrev pub IsWord : ℕ → Type 0
IsWord w = w < 4294967296

pub words_of_bytes-bytes_of_words :
    (ws rest : List ℕ)
    → All IsWord ws
    → words_of_bytes (bytes_of_words ws ++ rest) ≡ ws ++ words_of_bytes rest
unfolding words_of_bytes bytes_of_words
words_of_bytes-bytes_of_words [] rest h = refl
words_of_bytes-bytes_of_words (w ∷ ws) rest h =
    ground (arith, word32-bytes32 w h.0, words_of_bytes-bytes_of_words ws rest h.1)

pub words_of_bytes-bytes_of_words-All :
    (ws : List ℕ) → All IsWord ws → words_of_bytes (bytes_of_words ws) ≡ ws
unfolding words_of_bytes bytes_of_words
words_of_bytes-bytes_of_words-All [] h = refl
words_of_bytes-bytes_of_words-All (w ∷ ws) h =
    ground (arith, word32-bytes32 w h.0, words_of_bytes-bytes_of_words-All ws h.1)

pub length-bytes_of_words : (ws : List ℕ) → length (bytes_of_words ws) ≡ 4 * length ws
unfolding bytes_of_words
length-bytes_of_words [] = omega arith
length-bytes_of_words (w ∷ ws) = omega (arith, length-bytes_of_words ws)

pub bytes_of_words-append :
    (ws vs : List ℕ) → bytes_of_words (ws ++ vs) ≡ bytes_of_words ws ++ bytes_of_words vs
unfolding bytes_of_words
bytes_of_words-append [] vs = refl
bytes_of_words-append (w ∷ ws) vs = ground (arith, bytes_of_words-append ws vs)
