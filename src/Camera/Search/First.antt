-- ===== src/Camera/Search/First.antt =====
-- Which device main() of host_camera_service/host_camera_server.cc finds, and whether its name fits.
use host_camera_server.Base.{
  ℕ, zero, suc, ◌+◌, ◌≤◌, ◌<◌, ◌≡◌, ◌↔◌, ◌⊎◌, inl, inr, refl, sym, List, [], ◌∷◌, ◌++◌, Bool, true,
  false, ℤ, is_neg, is_zero, Option, none, some, take, length, arith, if◌then◌else◌, Bool-cases,
  ltb, ◌==◌, lt→ltb, le→ltb_false, ◌/◌, ◌%◌, length-take, digits, length-append,
}
use host_camera_server.Video.Sink.{overlay}
use host_camera_server.Camera.Search.{
  c_string, starts_with, contains, normal, dev_name, sys_entry, search, find_device, device_index,
  device_index_size,
}

-- What a search over the numbers from `n` on, below `n + left`, has found: a number of that range, or
-- none, and no number that passes the test was passed over on the way.
abbrev pub NonePassed : (ℕ → Bool) → ℕ → ℕ → Option ℕ → Type 0
NonePassed test n left none = (i : ℕ) → n ≤ i → i < n + left → test i ≡ false
NonePassed test n left (some d) =
    (n ≤ d) × (d < n + left) × ((i : ℕ) → n ≤ i → i < d → test i ≡ false)

starts_with-append :
    (ps cs xs : List ℕ) → starts_with ps cs ≡ true → starts_with ps (cs ++ xs) ≡ true
starts_with-append [] cs xs h = refl
starts_with-append (p ∷ ps) [] xs h = absurd cc
starts_with-append (p ∷ ps) (c ∷ cs) xs h = ground (arith, starts_with-append ps cs xs)

starts-contains : (w cs : List ℕ) → starts_with w cs ≡ true → contains w cs ≡ true
unfolding contains
starts-contains w [] h = h
starts-contains w (c ∷ cs) h = simp h refl

contains-append : (w cs xs : List ℕ) → contains w cs ≡ true → contains w (cs ++ xs) ≡ true
unfolding contains
contains-append w [] xs h = starts-contains w xs (starts_with-append w [] xs h)
contains-append w (c ∷ cs) xs h = elim (Bool-cases (starts_with w (c ∷ cs))) [
  | inl here ↦ starts-contains w (c ∷ cs ++ xs) (starts_with-append w (c ∷ cs) xs here)
  | inr further ↦
      let rest : contains w (cs ++ xs) ≡ true = contains-append w cs xs (rw further at h) in
      elim (Bool-cases (starts_with w (c ∷ cs ++ xs))) [
        | inl there ↦ simp there refl
        | inr away ↦ rw (away) rest
      ]
]

-- Bytes over longer memory read as a C string that starts with what they are by themselves.
c_string-overlay :
    (bs memory : List ℕ)
    → length bs ≤ length memory
    → (xs : List ℕ) × (c_string (overlay bs memory) ≡ c_string bs ++ xs)
unfolding c_string
c_string-overlay [] memory h = (c_string memory, refl)
c_string-overlay (b ∷ bs) [] h = absurd (omega arith)
c_string-overlay (b ∷ bs) (m ∷ memory) h =
    let (xs, e) = c_string-overlay bs memory (omega arith) in
    elim (Bool-cases (b == 0)) [
      | inl ends ↦ ([], rw ends refl)
      | inr goes_on ↦ (xs, rw (goes_on, e) refl)
    ]

le_cases_10 : (d : ℕ) → (d < 10) ⊎ (10 ≤ d)
le_cases_10 d = ground arith

le_cases : (n i : ℕ) → n ≤ i → (n ≡ i) ⊎ (n + 1 ≤ i)
le_cases n i h = ground (arith, h)

module _ (opens : ℕ → ℤ) (name memory : ℕ → List ℕ) where
  -- The device is there, and the first ten characters of its name contain "normal".
  abbrev pub is_normal : ℕ → Bool
  is_normal n = if is_neg (opens n) then false else contains normal (c_string (take 10 (name n)))

  entry :
      (n : ℕ)
      → 10 ≤ length (memory n)
      → is_normal n ≡ true
      → contains normal (c_string (sys_entry opens name memory n)) ≡ true
  unfolding sys_entry
  entry n room h = elim (Bool-cases (is_neg (opens n))) [
    | inl missing ↦ absurd (ground (arith, h, missing))
    | inr there ↦
        let bs = take 10 (name n) in
        let (xs, e) =
          c_string-overlay bs (memory n) (omega (arith, length-take 10 (name n), room)) in
        rw (sys_entry, there, e) (contains-append normal (c_string bs) xs (rw there at h))
  ]

  -- A number that fails the test is put in front of the range.
  later :
      (test : ℕ → Bool) (n left : ℕ) (r : Option ℕ)
      → test n ≡ false
      → NonePassed test (n + 1) left r
      → NonePassed test n (suc left) r
  later test n left none fails h = λ i low high. elim (le_cases n i low) [
    | inl same ↦ rw (sym same) fails
    | inr above ↦ h i above (omega (arith, high))
  ]
  later test n left (some d) fails h = (
    omega (arith, h.0),
    omega (arith, h.1),
    λ i low high. elim (le_cases n i low) [
      | inl same ↦ rw (sym same) fails
      | inr above ↦ h.2 i above high
    ],
  )

  search-NonePassed :
      (left n : ℕ)
      → ((i : ℕ) → 10 ≤ length (memory i))
      → ((i : ℕ) → is_zero (opens i) ≡ false)
      → NonePassed is_normal n left (search opens name memory left n).0
  unfolding search
  search-NonePassed zero n room nonzero = λ i low high. absurd (omega arith)
  search-NonePassed (suc left) n room nonzero =
      elim (Bool-cases (contains normal (c_string (sys_entry opens name memory n)))) [
        | inl passes ↦
            rw (search, nonzero n, passes)
              (omega arith, omega arith, λ i low high. absurd (omega (arith, low, high)))
        | inr fails ↦
            let other : is_normal n ≡ false = elim (Bool-cases (is_normal n)) [
              | inl is ↦ absurd (ground (arith, entry n (room n) is, fails))
              | inr is_not ↦ is_not
            ] in
            rw (search, nonzero n, fails)
              (later is_normal n left (search opens name memory left (n + 1)).0 other
                (search-NonePassed left (n + 1) room nonzero))
      ]

  -- Whatever the uninitialised characters of `sys_entry`, at least ten, hold, if open() never gives
  -- descriptor 0: main() never passes over a device that is there and whose name has "normal" in its
  -- first ten characters. It ends with a device below 255 and none of those was before it, or it ends
  -- with no device and none of the 255 is one.
  pub find_device-NonePassed :
      ((i : ℕ) → 10 ≤ length (memory i))
      → ((i : ℕ) → is_zero (opens i) ≡ false)
      → NonePassed is_normal 0 255 (find_device opens name memory).0
  unfolding find_device
  find_device-NonePassed room nonzero = search-NonePassed 255 0 room nonzero

digits-one : (n : ℕ) → n < 10 → length (digits 10 n) ≡ 1
unfolding digits
digits-one n h = ground (arith, lt→ltb n 10 h)

digits-some : (k n : ℕ) → 1 ≤ length (digits (suc k) n)
unfolding digits
digits-some k n = elim (Bool-cases (ltb n 10)) [
  | inl small ↦ rw small (omega arith)
  | inr large ↦ rw large (omega (arith, length-append (digits k (n / 10)) ((48 + n % 10) ∷ [])))
]

digits-two : (n : ℕ) → 10 ≤ n → 2 ≤ length (digits 10 n)
unfolding digits
digits-two n h =
    rw (le→ltb_false n 10 h) (
      omega (arith, digits-some 8 (n / 10), length-append (digits 9 (n / 10)) ((48 + n % 10) ∷ [])))

-- The name of a device that the search can find fits `device_index`, with its NUL, exactly if its
-- number has one digit; from /dev/video10 on strcpy() writes past the array.
pub device_index-fits :
    (d : ℕ) → d < 255 → (length (device_index (some d)) + 1 ≤ device_index_size) ↔ (d < 10)
unfolding device_index dev_name
device_index-fits d h = (
  λ fits. elim (le_cases_10 d) [
    | inl small ↦ small
    | inr large ↦ absurd (omega (arith, fits, digits-two d large))
  ],
  λ small. omega (arith, digits-one d small),
)
