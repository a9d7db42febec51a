-- ===== src/Ipc/Descriptors.antt =====
-- Descriptors passed by `send_fds` and `recv_fds` of src/linux/ipc.rs, in messages of eight.
use mathlib.Core.List.{append-nil, append_assoc}
use minion.Base.{
  ℕ, zero, suc, ◌-◌, ◌≤◌, ◌<◌, ◌≡◌, ◌≢◌, refl, sym, ap, subst, ◌∙◌, none, some, Option, List, [],
  ◌∷◌, ◌++◌, map, arith, eq_refl, Option-cases, inl, inr, length, take, drop, min, length-take,
  length-drop, length-map, map-append, take-append-drop, take_all, drop_all, ◌==◌, false, bytes,
}
use minion.Os.{Env, History, Packet, Outcome, ok, err, pure, ◌>>=◌, ◌>>◌}
use minion.Os.Laws.{>>=-ok, >>=-err}
use minion.Fds.{drop_fds}
use minion.Os.Calls.{Call, sendmsg, recvmsg}
use minion.Errors.{IpcError, ancillary}
use minion.Ipc.{chunks, send_chunks, send_fds, recv_chunk, recv_chunks, recv_fds, fd_chunk_size}
use minion.Ipc.Packets.{sent, Files, Renumbered, Delivers, rights_of}

abbrev fd_packet : List ℕ → Packet
fd_packet chunk = record { payload = bytes "_"; rights = rights_of chunk }

abbrev sending : ℕ → List ℕ → Call
sending fd chunk = sendmsg fd (bytes "_") chunk

send_chunks_step :
    (fd : ℕ) (c : List ℕ) (cs : List (List ℕ)) (env : Env) (h : History)
    → env.status h (sending fd c) ≡ none
    → send_chunks fd (c ∷ cs) env h ≡ send_chunks fd cs env (sending fd c ∷ h)
unfolding send_chunks ◌>>◌
send_chunks_step fd c cs env h s = rw (s, ◌>>◌, ◌>>=◌)

send_chunks_failed :
    (fd : ℕ) (c : List ℕ) (cs : List (List ℕ)) (env : Env) (h : History) (errno : ℕ)
    → env.status h (sending fd c) ≡ some errno
    → (send_chunks fd (c ∷ cs) env h).0 ≡ err (IpcError.syscall errno)
unfolding send_chunks ◌>>◌
send_chunks_failed fd c cs env h errno s = rw (s, ◌>>◌, ◌>>=◌)

sent_sending :
    (fd : ℕ) (c : List ℕ) (h : History) → sent fd (sending fd c ∷ h) ≡ sent fd h ++ fd_packet c ∷ []
sent_sending fd c h = rw (eq_refl fd)

sent-send_chunks :
    (fd : ℕ) (cs : List (List ℕ)) (env : Env) (h : History)
    → (send_chunks fd cs env h).0 ≡ ok tt
    → sent fd (send_chunks fd cs env h).1 ≡ sent fd h ++ map fd_packet cs
sent-send_chunks fd [] env h e = unfold send_chunks ◌>>◌ in sym (append-nil (sent fd h))
sent-send_chunks fd (c ∷ cs) env h e = elim (Option-cases (env.status h (sending fd c))) [
  | inl s ↦
      let step = send_chunks_step fd c cs env h s in
      rw step (
        sent-send_chunks fd cs env (sending fd c ∷ h) (rw step at e)
        ∙ ap (λ r. r ++ map fd_packet cs) (sent_sending fd c h)
        ∙ append_assoc (sent fd h) (fd_packet c ∷ []) (map fd_packet cs))
  | inr (errno, s) ↦ cc (send_chunks_failed fd c cs env h errno s)
]

recv_chunk_step :
    (fd size : ℕ) (got chunk : List ℕ) (env : Env) (h : History)
    → env.status h (recvmsg fd 1) ≡ none
    → (env.packet h (recvmsg fd 1)).rights ≡ some chunk
    → length chunk ≡ size
    → recv_chunk fd size got env h ≡ (ok (got ++ chunk), recvmsg fd 1 ∷ h)
unfolding recv_chunk ◌>>=◌
recv_chunk_step fd size got chunk env h s p l = ground arith

-- What arrives for descriptors.
renumbered :
    (files : Files) (fds : List ℕ) (r : Option (List ℕ))
    → Renumbered files (some fds) r
    → (fds' : List ℕ) × (r ≡ some fds') × (map files.receiver fds' ≡ map files.sender fds)
renumbered files fds none e = absurd e
renumbered files fds (some fds') e = (fds', refl, e)

same_length :
    (files : Files) (fds fds' : List ℕ)
    → map files.receiver fds' ≡ map files.sender fds
    → length fds' ≡ length fds
same_length files fds fds' e =
    sym (length-map files.receiver fds') ∙ ap length e ∙ length-map files.sender fds

-- The descriptors that the reader holds in the end: those that it had, and for each one sent one
-- for the same file.
abbrev Taken : Files → List ℕ → List ℕ → Outcome IpcError (List ℕ) → Type 0
Taken files got fds r =
    (fds' : List ℕ) × (r ≡ ok (got ++ fds')) × (map files.receiver fds' ≡ map files.sender fds)

module _ (files : Files) (env : Env) (fd : ℕ) where
  nothing_left : (got : List ℕ) (h : History) → Taken files got [] (pure got env h).0
  nothing_left got h = ([], unfold ◌>>=◌ in ap ok (sym (append-nil got)), refl)

  recv_chunks_delivered :
      (fuel f : ℕ) (got fds : List ℕ) (h : History)
      → length fds ≤ fuel
      → length fds ≤ f
      → Delivers files env fd h (map fd_packet (chunks f fds))
      → Taken files got fds (recv_chunks fuel fd (length fds) got env h).0
  unfolding recv_chunks chunks
  recv_chunks_delivered zero f got [] h l k d = nothing_left got h
  recv_chunks_delivered zero f got (x ∷ xs) h l k d = absurd (omega arith)
  recv_chunks_delivered (suc fuel) f got [] h l k d = nothing_left got h
  recv_chunks_delivered (suc fuel) zero got (x ∷ xs) h l k d = absurd (omega arith)
  recv_chunks_delivered (suc fuel) (suc f) got (x ∷ xs) h l k d =
      let fds : List ℕ = x ∷ xs in
      let now = take fd_chunk_size fds in
      let later = drop fd_chunk_size fds in
      let (s, p, more) = d 1 in
      let (chunk, came, same) = renumbered files now _ p.rights in
      let size : length chunk ≡ min fd_chunk_size (length fds) =
        same_length files now chunk same ∙ length-take fd_chunk_size fds in
      let step = recv_chunk_step fd (min fd_chunk_size (length fds)) got chunk env h s came size in
      let left : suc (length xs) - min fd_chunk_size (suc (length xs)) ≡ length later =
        omega (arith, length-drop fd_chunk_size fds) in
      let (rest, holds, same') =
        recv_chunks_delivered fuel f (got ++ chunk) later (recvmsg fd 1 ∷ h)
          (omega (arith, length-drop fd_chunk_size fds))
          (omega (arith, length-drop fd_chunk_size fds)) more in
      (
        chunk ++ rest,
        ap (λ r. r.0)
              (>>=-ok _
                (λ got'.
                  recv_chunks fuel fd (suc (length xs) - min fd_chunk_size (suc (length xs))) got')
                env h step)
            ∙ ap (λ n. (recv_chunks fuel fd n (got ++ chunk) env (recvmsg fd 1 ∷ h)).0) left
            ∙ holds
            ∙ ap ok (append_assoc got chunk rest),
        map-append files.receiver chunk rest
            ∙ ap (λ a. a ++ map files.receiver rest) same
            ∙ ap (λ b. map files.sender now ++ b) same'
            ∙ sym (map-append files.sender now later)
            ∙ ap (map files.sender) (take-append-drop fd_chunk_size fds),
      )

-- Descriptors that were sent and arrive through a packet socket are received, all of them and in
-- order, by a reader that asks for their number: the reader gets as many numbers of its own, for
-- the same open files.
pub recv_fds-send_fds :
    (files : Files) (fd fd' : ℕ) (fds : List ℕ) (env env' : Env) (h' : History)
    → (send_fds fd fds env []).0 ≡ ok tt
    → Delivers files env' fd' h' (sent fd (send_fds fd fds env []).1)
    → (fds' : List ℕ) × ((recv_fds fd' (length fds) env' h').0 ≡ ok fds')
      × (map files.receiver fds' ≡ map files.sender fds)
unfolding send_fds recv_fds
recv_fds-send_fds files fd fd' fds env env' h' e d =
    recv_chunks_delivered files env' fd' (length fds) (length fds) [] fds h' (omega arith)
      (omega arith)
      (subst (Delivers files env' fd' h') (sent-send_chunks fd (chunks (length fds) fds) env [] e)
        d)

one_chunk : (fds : List ℕ) → fds ≢ [] → length fds ≤ 8 → chunks (length fds) fds ≡ fds ∷ []
unfolding chunks
one_chunk [] ne le = absurd (ne refl)
one_chunk (x ∷ xs) ne le =
    rw (take_all fd_chunk_size (x ∷ xs) le, drop_all fd_chunk_size (x ∷ xs) le)

recv_chunk_refused :
    (fd size : ℕ) (chunk : List ℕ) (env : Env) (h : History)
    → env.status h (recvmsg fd 1) ≡ none
    → (env.packet h (recvmsg fd 1)).rights ≡ some chunk
    → (length chunk == size) ≡ false
    → recv_chunk fd size [] env h ≡ (err ancillary, recvmsg fd 1 ∷ h)
unfolding recv_chunk ◌>>◌ drop_fds
recv_chunk_refused fd size chunk env h s p l = rw (s, p, l, drop_fds, ◌>>◌, ◌>>=◌)

some_rights :
    (files : Files) (fds : List ℕ) (r : Option (List ℕ))
    → fds ≢ []
    → Renumbered files (rights_of fds) r
    → (fds' : List ℕ) × (r ≡ some fds') × (map files.receiver fds' ≡ map files.sender fds)
some_rights files [] r ne e = absurd (ne refl)
some_rights files (x ∷ xs) r ne e = renumbered files (x ∷ xs) r e

-- A reader that asks for another number of descriptors than the message brings, and for at least
-- one, is refused, if both numbers fit one message; the received ones are not returned.
pub recv_fds_mismatch :
    (files : Files) (fd fd' n : ℕ) (fds : List ℕ) (env env' : Env) (h' : History)
    → fds ≢ []
    → length fds ≤ 8
    → 0 < n
    → n ≤ 8
    → n ≢ length fds
    → (send_fds fd fds env []).0 ≡ ok tt
    → Delivers files env' fd' h' (sent fd (send_fds fd fds env []).1)
    → recv_fds fd' n env' h' ≡ (err ancillary, recvmsg fd' 1 ∷ h')
unfolding send_fds recv_fds
recv_fds_mismatch files fd fd' zero fds env env' h' ne le pos few other s d = absurd (omega arith)
recv_fds_mismatch files fd fd' (suc m) fds env env' h' ne le pos few other s d =
    let arrived : Delivers files env' fd' h' (fd_packet fds ∷ []) =
      subst (λ cs. Delivers files env' fd' h' (map fd_packet cs)) (one_chunk fds ne le)
        (subst (Delivers files env' fd' h') (sent-send_chunks fd (chunks (length fds) fds) env [] s)
          d) in
    let (ready, packet, more) = arrived 1 in
    let (chunk, came, same) = some_rights files fds _ ne packet.rights in
    let size = same_length files fds chunk same in
    >>=-err _ _ env' h'
      (recv_chunk_refused fd' (min fd_chunk_size (suc m)) chunk env' h' ready came (ground arith))
