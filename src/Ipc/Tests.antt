-- ===== src/Ipc/Tests.antt =====
-- Messages and descriptors of src/linux/ipc.rs through a concrete socket.
use minion.Base.{ℕ, List, map, ◌+◌, ◌≡◌, refl, none, some, [], ◌∷◌, ◌++◌, arith, Text, bytes}
use minion.Os.{History, Packet, ok, err, panic, ◌>>◌}
use minion.Os.Calls.{recvmsg}
use minion.Os.Samples.{answering, quiet}
use minion.Errors.{ancillary}
use minion.Ipc.{Codec, to_ne_bytes, send, recv, send_fds, recv_fds, send_chunks, chunks}
use minion.Ipc.Packets.{Files, Renumbered, Arrives}
use minion.Ipc.Messages.{recv-send, recv_other_type}
use minion.Ipc.Descriptors.{recv_fds-send_fds, recv_fds_mismatch}

abbrev numbers : Codec ℕ
numbers = record {
  type_id = 77;
  to_vec = λ n. some (n ∷ []);
  from_slice = λ s. elim s [ [] ↦ none | c ∷ rest ↦ some c ];
}

abbrev others : Codec Text
others = record { type_id = 78; to_vec = λ s. some s; from_slice = λ s. some s }

-- The header of the message `9 ∷ []`, then the message.
abbrev two_packets : History → Packet
two_packets [] = record { payload = to_ne_bytes 8 1 ++ to_ne_bytes 8 77; rights = none }
two_packets (c ∷ h) = record { payload = 9 ∷ []; rights = none }

abbrev two_fds : History → Packet
two_fds h = record { payload = bytes "_"; rights = some (14 ∷ 15 ∷ []) }

-- The reader's number is the sender's plus ten.
abbrev files : Files
files = record { sender = λ fd. fd + 10; receiver = λ fd. fd }

abbrev whole : {p : Packet} → Renumbered files p.rights p.rights → Arrives files p p
whole r = record { payload = refl; rights = r }

recv-send_example : (recv numbers 6 (answering 0 two_packets) []).0 ≡ ok 9
unfolding send to_ne_bytes ◌>>◌
recv-send_example =
    recv-send numbers files 5 6 9 (9 ∷ []) quiet (answering 0 two_packets) [] refl refl
      (omega arith) (omega arith) refl (λ n. (refl, whole tt, λ m. (refl, whole tt, tt)))

recv_other_type_example : recv others 6 (answering 0 two_packets) [] ≡ (panic, recvmsg 6 16 ∷ [])
unfolding send to_ne_bytes ◌>>◌
recv_other_type_example =
    recv_other_type numbers others files 5 6 9 (9 ∷ []) quiet (answering 0 two_packets) [] refl
      (omega arith) (λ e. omega (arith, e)) refl (λ n. (refl, whole tt, λ m. (refl, whole tt, tt)))

arrived : Arrives files (record { payload = bytes "_"; rights = some (4 ∷ 5 ∷ []) }) (two_fds [])
arrived = record { payload = refl; rights = refl }

recv_fds-send_fds_example :
    (fds' : List ℕ) × ((recv_fds 6 2 (answering 0 two_fds) []).0 ≡ ok fds')
    × (map (λ fd. fd) fds' ≡ 14 ∷ 15 ∷ [])
unfolding send_fds send_chunks chunks ◌>>◌
recv_fds-send_fds_example =
    recv_fds-send_fds files 5 6 (4 ∷ 5 ∷ []) quiet (answering 0 two_fds) [] refl
      (λ n. (refl, arrived, tt))

recv_fds_mismatch_example :
    recv_fds 6 3 (answering 0 two_fds) [] ≡ (err ancillary, recvmsg 6 1 ∷ [])
unfolding send_fds send_chunks chunks ◌>>◌
recv_fds_mismatch_example =
    recv_fds_mismatch files 5 6 3 (4 ∷ 5 ∷ []) quiet (answering 0 two_fds) [] (λ e. cc e)
      (omega arith) (omega arith) (omega arith) (λ e. omega (arith, e)) refl
      (λ n. (refl, arrived, tt))
