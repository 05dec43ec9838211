-- ===== src/Net/Paths.antt =====
-- The socket paths that the constructors of source/video_sink.cc and source/sensor_interface.cc make.
use host_camera_server.Base.{
  ℕ, ◌≡◌, ◌≢◌, sym, ap, ◌∙◌, inl, inr, List, [], ◌++◌, ℤ, pos, is_neg, Option, none, some, arith,
  ◌<◌, ◌==◌, length, digits, value, digits-value, decimal, if◌then◌else◌, Bool-cases,
  append_cancel_left,
}

-- The path, or none where the constructor throws std::invalid_argument.
unfoldable pub socket_path : List ℕ → List ℕ → ℤ → Option (List ℕ)
socket_path suffix socket_dir android_instance_id =
    if length socket_dir == 0
    then none
    else some (
        socket_dir
        ++ suffix
        ++ (if is_neg android_instance_id then [] else decimal android_instance_id))

digits-injective : (m n : ℕ) → m < 2147483648 → n < 2147483648 → digits 10 m ≡ digits 10 n → m ≡ n
digits-injective m n h k e =
    sym (digits-value 10 m (omega arith)) ∙ ap value e ∙ digits-value 10 n (omega arith)

-- In one directory and with one suffix, two different instance numbers that are not negative and fit
-- an int give different socket paths.
pub socket_path-distinct :
    (suffix dir p q : List ℕ) (m n : ℕ)
    → (m < 2147483648) × (n < 2147483648)
    → m ≢ n
    → socket_path suffix dir (pos m) ≡ some p
    → socket_path suffix dir (pos n) ≡ some q
    → p ≢ q
unfolding socket_path
socket_path-distinct suffix dir p q m n ints apart e f same = elim (Bool-cases (length dir == 0)) [
  | inl empty ↦ ground (arith, rw (empty, socket_path) at e)
  | inr given ↦
      let whole : dir ++ suffix ++ digits 10 m ≡ dir ++ suffix ++ digits 10 n =
        ground (arith, rw (given, socket_path) at e, rw (given, socket_path) at f) in
      apart (
        digits-injective m n ints.0 ints.1
          (append_cancel_left (dir ++ suffix) (digits 10 m) (digits 10 n) whole))
]
