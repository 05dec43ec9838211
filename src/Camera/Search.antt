-- ===== src/Camera/Search.antt =====
-- The searches for a device of host_camera_service/host_camera_server.cc: that of main() under
-- /sys/devices/virtual, and get_all_dev_nodes.
pub mod First
use host_camera_server.Base.{
  ℕ, zero, suc, ◌+◌, List, [], ◌∷◌, ◌++◌, Bool, true, false, ◌&&◌, ℤ, is_neg, is_zero, is_minus_one,
  Option, none, some, take, ◌==◌, codes, digits, if◌then◌else◌,
}
use host_camera_server.Video.Sink.{overlay}

-- A C string in memory.
unfoldable pub c_string : List ℕ → List ℕ
c_string [] = []
c_string (c ∷ cs) = let rest = c_string cs in if c == 0 then [] else c ∷ rest

abbrev pub starts_with : List ℕ → List ℕ → Bool
starts_with [] cs = true
starts_with (p ∷ ps) [] = false
starts_with (p ∷ ps) (c ∷ cs) = p == c && starts_with ps cs

-- strstr(text, word) != NULL.
unfoldable pub contains : List ℕ → List ℕ → Bool
contains word [] = starts_with word []
contains word (c ∷ cs) =
    let rest = contains word cs in if starts_with word (c ∷ cs) then true else rest

-- strcmp(a, b) == 0.
unfoldable pub same_text : List ℕ → List ℕ → Bool
same_text [] [] = true
same_text [] (y ∷ ys) = false
same_text (x ∷ xs) [] = false
same_text (x ∷ xs) (y ∷ ys) = x == y && same_text xs ys

abbrev pub normal : List ℕ
normal = codes "normal"

-- What sprintf writes for a device.
unfoldable pub dev_name : ℕ → List ℕ
dev_name dev_id = codes "/dev/video" ++ digits 10 dev_id

-- `opens n` is what open() gives for the name file of device n, `name n` is what that file holds, and
-- `memory n` is what stands at `sys_entry` before the read and behind it.
module _ (opens : ℕ → ℤ) (name memory : ℕ → List ℕ) where
  -- `sys_entry` after read() of ten bytes, which does nothing on descriptor -1.
  unfoldable pub sys_entry : ℕ → List ℕ
  sys_entry dev_id =
      if is_neg (opens dev_id)
      then memory dev_id
      else overlay (take 10 (name dev_id)) (memory dev_id)

  -- The search from a device on, over that many; `if(fp)` lets -1 through. It gives the device that it found, and the
  -- descriptors that it has opened, none of which is closed.
  unfoldable pub search : ℕ → ℕ → Option ℕ × List ℤ
  search zero dev_id = (none, [])
  search (suc left) dev_id =
      let (result, fds) = search left (dev_id + 1) in
      if is_zero (opens dev_id)
      then (result, opens dev_id ∷ fds)
      else if contains normal (c_string (sys_entry dev_id))
      then (some dev_id, opens dev_id ∷ [])
      else (result, opens dev_id ∷ fds)

  -- The loop of main() over 255 devices.
  unfoldable pub find_device : Option ℕ × List ℤ
  unfolding search
  find_device = search 255 0

-- `device_index` after the loop; its array has twelve characters.
abbrev pub device_index_size : ℕ
device_index_size = 12

unfoldable pub device_index : Option ℕ → List ℕ
unfolding dev_name
device_index none = codes "/dev/video6"
device_index (some dev_id) = dev_name dev_id

-- `caps n` is the driver and the card that VIDIOC_QUERYCAP gives for device n, if it does not fail.
module _ (opens : ℕ → ℤ) (caps : ℕ → Option (List ℕ × List ℕ)) where
  unfoldable pub is_loopback : Option (List ℕ × List ℕ) → Bool
  unfolding same_text
  is_loopback none = false
  is_loopback (some (driver, card)) =
      same_text driver (codes "v4l2 loopback") && same_text card normal

  -- The loop from a device on, over that many, with the device found so far.
  unfoldable pub dev_nodes : ℕ → ℕ → Option ℕ → Option ℕ
  unfolding is_loopback
  dev_nodes zero dev_id found = found
  dev_nodes (suc left) dev_id found = dev_nodes left (dev_id + 1) (
      if is_minus_one (opens dev_id)
      then found
      else if is_loopback (caps dev_id)
      then some dev_id
      else found)

  unfoldable pub get_all_dev_nodes : Option ℕ
  unfolding dev_nodes
  get_all_dev_nodes = dev_nodes 64 0 none
