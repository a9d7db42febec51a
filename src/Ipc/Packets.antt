-- ===== src/Ipc/Packets.antt =====
-- A SOCK_SEQPACKET socket as its documentation describes it: the packets that one side sends arrive
-- at the other side whole and in order. Descriptors arrive under new numbers of the receiver, which
-- stand for the same open files. This is a property of an environment, not of the code.
use minion.Base.{ℕ, ◌≡◌, map, Option, none, some, List, [], ◌∷◌, ◌++◌, ◌==◌, if◌then◌else◌}
use minion.Os.{Env, History, Packet}
use minion.Os.Calls.{Call, sendmsg, recvmsg}

-- The control message of a packet: none if no descriptors were given.
abbrev pub rights_of : List ℕ → Option (List ℕ)
rights_of [] = none
rights_of (fd ∷ fds) = some (fd ∷ fds)

abbrev packet_of : ℕ → Call → List Packet
packet_of fd (sendmsg f payload fds) =
    if f == fd then record { payload = payload; rights = rights_of fds } ∷ [] else []
packet_of fd _ = []

-- The packets that a history of calls sent through a descriptor, the oldest first.
abbrev pub sent : ℕ → History → List Packet
sent fd [] = []
sent fd (c ∷ h) = sent fd h ++ packet_of fd c

-- Which open file each descriptor number of the sender and of the receiver stands for.
pub record Files : Type 0 where
  pub sender : ℕ → ℕ
  pub receiver : ℕ → ℕ

-- The control message that arrives for one that was sent: other numbers, for the same files.
abbrev pub Renumbered : Files → Option (List ℕ) → Option (List ℕ) → Type 0
Renumbered files none none = Unit
Renumbered files (some fds) (some fds') = map files.receiver fds' ≡ map files.sender fds
Renumbered files _ _ = ⊥

pub record Arrives (files : Files) (p q : Packet) : Type 0 where
  pub payload : q.payload ≡ p.payload
  pub rights : Renumbered files p.rights q.rights

-- From the history `h` on, reads from the descriptor succeed and bring these packets, in order.
abbrev pub Delivers : Files → Env → ℕ → History → List Packet → Type 0
Delivers files env fd h [] = Unit
Delivers files env fd h (p ∷ ps) =
    (n : ℕ)
    → (env.status h (recvmsg fd n) ≡ none)
      × Arrives files p (env.packet h (recvmsg fd n))
      × Delivers files env fd (recvmsg fd n ∷ h) ps
