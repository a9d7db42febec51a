-- ===== src/Ipc.antt =====
-- src/linux/ipc.rs: messages and descriptors over a SOCK_SEQPACKET socket. Serialisation is the
-- `Codec` of a type: what serde_json does with it, and the hash of its `TypeId`.
pub mod Packets
pub mod Messages
pub mod Descriptors
mod Tests
use minion.Base.{
  ℕ, zero, suc, ◌+◌, ◌-◌, ◌*◌, ◌/◌, ◌%◌, ◌==◌, min, Bool, Option, none, some, List, [], ◌∷◌, ◌++◌,
  Text, bytes, length, take, drop, replicate, if◌then◌else◌,
}
use minion.Os.{
  Sys, Packet, Result, success, failure, attempt, pure, fail, abort, map_err, sys, sys_pair,
  sys_packet, ◌>>=◌, ◌>>◌,
}
use minion.Os.Calls.{socketpair, sendmsg, recvmsg}
use minion.Errors.{IpcError, serde, syscall, ancillary}
use minion.Fds.{drop_fds}

pub record Codec (T : Type 0) : Type 0 where
  pub type_id : ℕ
  pub to_vec : T → Option Text
  pub from_slice : Text → Option T

-- `Socket::pair`; a `Socket` is its descriptor.
unfoldable pub pair : Sys IpcError (ℕ × ℕ)
pair = map_err syscall (sys_pair socketpair)

abbrev pub fd_chunk_size : ℕ
fd_chunk_size = 8

-- `to_ne_bytes` on a little-endian machine, with the number of bytes.
unfoldable pub to_ne_bytes : ℕ → ℕ → Text
to_ne_bytes zero n = []
to_ne_bytes (suc k) n = (n % 256) ∷ to_ne_bytes k (n / 256)

unfoldable pub from_ne_bytes : Text → ℕ
from_ne_bytes [] = 0
from_ne_bytes (b ∷ s) = b + 256 * from_ne_bytes s

-- A zeroed buffer of `n` bytes after a message was read into it: a longer message is cut.
unfoldable pub filled : ℕ → Text → Text
filled n s = take n s ++ replicate (n - length s) 0

unfoldable pub send : {T : Type 0} → Codec T → ℕ → T → Sys IpcError (Unit {0})
send codec fd value = elim (codec.to_vec value) [
  | none ↦ fail serde
  | some message ↦
      let header = to_ne_bytes 8 (length message) ++ to_ne_bytes 8 codec.type_id in
      map_err syscall (sys (sendmsg fd header [])) >> map_err syscall (sys (sendmsg fd message []))
]

unfoldable pub decoded : {T : Type 0} → Codec T → Text → Sys IpcError T
decoded codec message = elim (codec.from_slice message) [ none ↦ fail serde | some m ↦ pure m ]

unfoldable pub recv_body : {T : Type 0} → Codec T → ℕ → ℕ → Sys IpcError T
unfolding decoded
recv_body codec fd len = do
  message ← map_err syscall (sys_packet (recvmsg fd len))
  decoded codec (filled len message.payload)

-- The two buffers of the header are filled one after the other; another type's message panics.
unfoldable pub recv : {T : Type 0} → Codec T → ℕ → Sys IpcError T
unfolding recv_body
recv codec fd = do
  header ← map_err syscall (sys_packet (recvmsg fd 16))
  let len = from_ne_bytes (filled 8 header.payload)
  let id = from_ne_bytes (filled 8 (drop 8 header.payload))
  if id == codec.type_id then recv_body codec fd len else abort

-- `chunks(FD_CHUNK_SIZE)`; the fuel is at least the length.
unfoldable pub chunks : ℕ → List ℕ → List (List ℕ)
chunks fuel [] = []
chunks zero (x ∷ xs) = []
chunks (suc fuel) (x ∷ xs) = take fd_chunk_size (x ∷ xs) ∷ chunks fuel (drop fd_chunk_size (x ∷ xs))

unfoldable pub send_chunks : ℕ → List (List ℕ) → Sys IpcError (Unit {0})
send_chunks fd [] = pure tt
send_chunks fd (chunk ∷ rest) =
    map_err syscall (sys (sendmsg fd (bytes "_") chunk)) >> send_chunks fd rest

unfoldable pub send_fds : ℕ → List ℕ → Sys IpcError (Unit {0})
unfolding chunks send_chunks
send_fds fd fds = send_chunks fd (chunks (length fds) fds)

-- A failure drops the descriptors that earlier messages brought.
unfoldable pub refused : {A : Type 0} → List ℕ → IpcError → Sys IpcError A
refused got e = drop_fds got >> fail e

accepted : ℕ → List ℕ → Result ℕ Packet → Sys IpcError (List ℕ)
unfolding refused
accepted size got (failure errno) = refused got (syscall errno)
accepted size got (success p) = elim p.rights [
  | none ↦ refused got ancillary
  | some fds ↦ if length fds == size then pure (got ++ fds) else refused got ancillary
]

unfoldable pub recv_chunk : ℕ → ℕ → List ℕ → Sys IpcError (List ℕ)
unfolding accepted
recv_chunk fd size got = attempt (sys_packet (recvmsg fd 1)) >>= accepted size got

-- One message for each chunk of the `n` descriptors still to come; the fuel is at least `n`.
unfoldable pub recv_chunks : ℕ → ℕ → ℕ → List ℕ → Sys IpcError (List ℕ)
unfolding recv_chunk
recv_chunks zero fd n got = pure got
recv_chunks (suc fuel) fd zero got = pure got
recv_chunks (suc fuel) fd (suc n) got = do
  got' ← recv_chunk fd (min fd_chunk_size (suc n)) got
  recv_chunks fuel fd (suc n - min fd_chunk_size (suc n)) got'

unfoldable pub recv_fds : ℕ → ℕ → Sys IpcError (List ℕ)
unfolding recv_chunks
recv_fds fd fd_count = recv_chunks fd_count fd fd_count []
