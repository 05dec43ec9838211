-- ===== src/Input/Sample/Names.antt =====
-- The device name that main() of host_camera_service/virtual_input_receiver_sample.cc prints.
use host_camera_server.Base.{
  ℕ, ◌+◌, ◌≤◌, ◌<◌, ◌≡◌, refl, List, ◌∷◌, ◌++◌, Bool, ℤ, pos, negsuc, arith, length, length-append,
  codes, digits, digits-value, value, decimal, decimal-length, if◌then◌else◌,
}

-- What sprintf writes, without the NUL; `k8s` tells whether K8S_ENV is "true".
unfoldable pub dev_name : Bool → ℤ → ℤ → List ℕ
dev_name k8s instance input =
    if k8s
    then codes "/conn/input-pipe" ++ b'-' ∷ decimal input
    else codes "./workdir/ipc/input-pipe" ++ decimal instance ++ b'-' ∷ decimal input

-- An int prints as digits that have its value, after a minus sign if it is negative.
abbrev pub Prints : ℤ → Type 0
Prints (pos n) = value (decimal (pos n)) ≡ n
Prints (negsuc n) = (ds : List ℕ) × (decimal (negsuc n) ≡ b'-' ∷ ds) × (value ds ≡ n + 1)

abbrev pub IsInt : ℤ → Type 0
IsInt (pos n) = n < 2147483648
IsInt (negsuc n) = n < 2147483648

decimal-Prints : (z : ℤ) → IsInt z → Prints z
decimal-Prints (pos n) h = digits-value 10 n (omega arith)
decimal-Prints (negsuc n) h = (digits 10 (n + 1), refl, digits-value 10 (n + 1) (omega arith))

-- For all ints, the device name and its NUL fit the 64 characters of `kDevNameId`, and the two
-- numbers in it are printed in full.
pub dev_name-fits :
    (k8s : Bool) (instance input : ℤ)
    → IsInt instance
    → IsInt input
    → (length (dev_name k8s instance input) + 1 ≤ 64) × Prints instance × Prints input
unfolding dev_name
dev_name-fits k8s i j h g = (
  ground (arith, decimal-length i, decimal-length j, length-append (decimal i) (b'-' ∷ decimal j)),
  decimal-Prints i h,
  decimal-Prints j g,
)
