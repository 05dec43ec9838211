-- ===== src/Net/Reliable.antt =====
-- A connection over which send() takes all that it is given, and the UNIX client over a system that
-- does so.
use host_camera_server.Base.{
  ℕ, ◌≡◌, refl, List, [], ◌∷◌, ◌++◌, pos, pos_part, length, take, take-length,
}
use host_camera_server.Net.Kernel.{Kernel, Syscall, opened, dialled, wrote, read, shut, closed}
use host_camera_server.Net.Client.{StreamClient}
use host_camera_server.Net.Unix.{UnixClient, as_stream, send}

-- A connection that takes all that it is given, and the bytes that it has taken.
pub record Reliable (net : StreamClient) : Type 0 where
  pub taken : net.State → List ℕ
  pub takes : (buf : List ℕ) (s : net.State) → taken (net.send buf s).0 ≡ taken s ++ buf
  pub reports : (buf : List ℕ) (s : net.State) → (net.send buf s).1.size ≡ pos (length buf)

-- The bytes that the descriptor has taken, from the log of the calls.
unfoldable taken_by : List Syscall → List ℕ
taken_by [] = []
taken_by (wrote fd buf result ∷ log) = taken_by log ++ take (pos_part result) buf
taken_by (opened fd ∷ log) = taken_by log
taken_by (dialled fd address ∷ log) = taken_by log
taken_by (read fd size result ∷ log) = taken_by log
taken_by (shut fd ∷ log) = taken_by log
taken_by (closed fd ∷ log) = taken_by log

-- The UNIX client over a system whose send() takes all that it is given.
module _ (k : Kernel) (whole : (n : ℕ) (buf : List ℕ) → k.send n buf ≡ pos (length buf)) where
  unix-takes :
      (buf : List ℕ) (c : UnixClient)
      → taken_by (send k buf c).0.socket.log ≡ taken_by c.socket.log ++ buf
  unfolding send taken_by
  unix-takes buf c = rw (whole c.socket.calls buf, take-length buf) refl

  unix-reports : (buf : List ℕ) (c : UnixClient) → (send k buf c).1.size ≡ pos (length buf)
  unfolding send
  unix-reports buf c = whole c.socket.calls buf

  pub unix-Reliable : Reliable (as_stream k)
  unix-Reliable = record {
    taken = λ c. taken_by c.socket.log;
    takes = unix-takes;
    reports = unix-reports;
  }
