-- ===== src/Ipc/Messages.antt =====
-- Messages passed by `send` and `recv` of src/linux/ipc.rs.
use mathlib.Core.List.{append-nil}
use native.Mathlib.Nat.{pow-suc}
use minion.Base.{
  ℕ, zero, suc, ◌-◌, ◌/◌, ◌^◌, ◌<◌, ◌≡◌, ◌≢◌, refl, sym, ap, subst, ◌∙◌, false, none, some, List,
  [], ◌∷◌, ◌++◌, Text, arith, ◌==◌, eq_refl, length, take, drop, length-append, take-append_self,
  drop-append_self, u64_limit, if◌then◌else◌,
}
use minion.Os.{Env, History, Packet, Sys, ok, panic, abort, map_err, sys_packet, ◌>>=◌, ◌>>◌}
use minion.Os.Laws.{>>=-ok}
use minion.Os.Calls.{sendmsg, recvmsg}
use minion.Errors.{IpcError}
use minion.Ipc.{Codec, to_ne_bytes, from_ne_bytes, filled, send, recv, recv_body, decoded}
use minion.Ipc.Packets.{Files, sent, Delivers}

length-to_ne_bytes : (k n : ℕ) → length (to_ne_bytes k n) ≡ k
unfolding to_ne_bytes
length-to_ne_bytes zero n = refl
length-to_ne_bytes (suc k) n = ap suc (length-to_ne_bytes k (n / 256))

-- What fits a number of bytes is read back from them.
pub from_ne_bytes-to_ne_bytes : (k n : ℕ) → n < 256 ^ k → from_ne_bytes (to_ne_bytes k n) ≡ n
unfolding to_ne_bytes from_ne_bytes
from_ne_bytes-to_ne_bytes zero n h = omega arith
from_ne_bytes-to_ne_bytes (suc k) n h =
    let ih = from_ne_bytes-to_ne_bytes k (n / 256) (omega (arith, pow-suc 256 k)) in
    omega (arith, ih)

filled_prefix : (n : ℕ) (a b : Text) → length a ≡ n → filled n (a ++ b) ≡ a
unfolding filled
filled_prefix n a b e =
    let whole : n - length (a ++ b) ≡ 0 = omega (arith, length-append a b) in
    rw whole (append-nil _ ∙ subst (λ k. take k (a ++ b) ≡ a) e (take-append_self a b))

filled_exact : (a : Text) → filled (length a) a ≡ a
filled_exact a =
    subst (λ s. filled (length a) s ≡ a) (append-nil a) (filled_prefix (length a) a [] refl)

abbrev plain : Text → Packet
plain t = record { payload = t; rights = none }

module _ {T : Type 0} (codec : Codec T) where
  abbrev header : Text → Text
  header message = to_ne_bytes 8 (length message) ++ to_ne_bytes 8 codec.type_id

  send_ok :
      (fd : ℕ) (m : T) (message : Text) (env : Env) (h : History)
      → codec.to_vec m ≡ some message
      → (send codec fd m env h).0 ≡ ok tt
      → (send codec fd m env h).1 ≡ sendmsg fd message [] ∷ sendmsg fd (header message) [] ∷ h
  unfolding send ◌>>◌
  send_ok fd m message env h e s = ground arith

  -- The two numbers of the header as `recv` reads them.
  header_len :
      (message : Text)
      → length message < u64_limit
      → from_ne_bytes (filled 8 (header message)) ≡ length message
  header_len message h =
      ap from_ne_bytes (filled_prefix 8 _ _ (length-to_ne_bytes 8 (length message)))
      ∙ from_ne_bytes-to_ne_bytes 8 (length message) h

  header_id :
      (message : Text)
      → codec.type_id < u64_limit
      → from_ne_bytes (filled 8 (drop 8 (header message))) ≡ codec.type_id
  header_id message h =
      ap (λ t. from_ne_bytes (filled 8 t))
        (subst (λ k. drop k (header message) ≡ to_ne_bytes 8 codec.type_id)
          (length-to_ne_bytes 8 (length message))
          (drop-append_self (to_ne_bytes 8 (length message)) (to_ne_bytes 8 codec.type_id)))
      ∙ ap (λ t. from_ne_bytes (filled 8 t)) (sym (append-nil _))
      ∙ ap from_ne_bytes (filled_prefix 8 _ [] (length-to_ne_bytes 8 codec.type_id))
      ∙ from_ne_bytes-to_ne_bytes 8 codec.type_id h

  received :
      (fd n : ℕ) (env : Env) (h : History) (p : Packet)
      → env.status h (recvmsg fd n) ≡ none
      → env.packet h (recvmsg fd n) ≡ p
      → map_err IpcError.syscall (sys_packet (recvmsg fd n)) env h ≡ (ok p, recvmsg fd n ∷ h)
  unfolding ◌>>=◌
  received fd n env h p s e = ground arith

  recv_body_ok :
      (files : Files) (fd : ℕ) (m : T) (message : Text) (env : Env) (h : History)
      → codec.from_slice message ≡ some m
      → Delivers files env fd h (plain message ∷ [])
      → (recv_body codec fd (length message) env h).0 ≡ ok m
  unfolding recv_body
  recv_body_ok files fd m message env h e d =
      let (s, p, _) = d (length message) in
      ap (λ r. r.0) (>>=-ok _ _ env h (received fd (length message) env h _ s refl))
      ∙ rw (p.payload, filled_exact message) (unfold decoded ◌>>=◌ in rw (e, decoded))

  abbrev dispatch : ℕ → Text → Sys IpcError T
  dispatch fd header =
      if from_ne_bytes (filled 8 (drop 8 header)) == codec.type_id
      then recv_body codec fd (from_ne_bytes (filled 8 header))
      else abort

  recv_start :
      (files : Files) (fd : ℕ) (p : Packet) (ps : List Packet) (env : Env) (h : History)
      → Delivers files env fd h (p ∷ ps)
      → recv codec fd env h ≡ dispatch fd p.payload env (recvmsg fd 16 ∷ h)
  unfolding recv
  recv_start files fd p ps env h d =
      let (s, e, _) = d 16 in
      >>=-ok _ (λ header. dispatch fd header.payload) env h (received fd 16 env h _ s refl)
      ∙ ap (λ t. dispatch fd t env (recvmsg fd 16 ∷ h)) e.payload

  -- The sender may have made calls before, but sent nothing through the descriptor.
  pub recv-send_after :
      (files : Files) (fd fd' : ℕ) (m : T) (message : Text) (env env' : Env) (h h' : History)
      → sent fd h ≡ []
      → codec.to_vec m ≡ some message
      → codec.from_slice message ≡ some m
      → length message < u64_limit
      → codec.type_id < u64_limit
      → (send codec fd m env h).0 ≡ ok tt
      → Delivers files env' fd' h' (sent fd (send codec fd m env h).1)
      → (recv codec fd' env' h').0 ≡ ok m
  recv-send_after files fd fd' m message env env' h h' nothing e f l t s d =
      let sent_eq : sent fd (send codec fd m env h).1
          ≡ plain (header message) ∷ plain message ∷ [] =
        ap (sent fd) (send_ok fd m message env h e s) ∙ rw (eq_refl fd, nothing) in
      let d' = subst (Delivers files env' fd' h') sent_eq d in
      ap (λ r. r.0) (recv_start files fd' (plain (header message)) (plain message ∷ []) env' h' d')
      ∙ rw (header_id message t, eq_refl codec.type_id, header_len message l)
          (recv_body_ok files fd' m message env' (recvmsg fd' 16 ∷ h') f (d' 16).2)

  -- A message that was sent and arrives through a packet socket is received as it was, if the
  -- serialisation of it reads back and the type's hash and the length fit 64 bits.
  pub recv-send :
      (files : Files) (fd fd' : ℕ) (m : T) (message : Text) (env env' : Env) (h' : History)
      → codec.to_vec m ≡ some message
      → codec.from_slice message ≡ some m
      → length message < u64_limit
      → codec.type_id < u64_limit
      → (send codec fd m env []).0 ≡ ok tt
      → Delivers files env' fd' h' (sent fd (send codec fd m env []).1)
      → (recv codec fd' env' h').0 ≡ ok m
  recv-send files fd fd' m message env env' h' =
      recv-send_after files fd fd' m message env env' [] h' refl

-- A reader that expects another type's message panics, before it reads the message itself.
pub recv_other_type :
    {S T : Type 0} (codec : Codec S) (expected : Codec T) (files : Files) (fd fd' : ℕ) (m : S)
    (message : Text) (env env' : Env) (h' : History)
    → codec.to_vec m ≡ some message
    → codec.type_id < u64_limit
    → codec.type_id ≢ expected.type_id
    → (send codec fd m env []).0 ≡ ok tt
    → Delivers files env' fd' h' (sent fd (send codec fd m env []).1)
    → recv expected fd' env' h' ≡ (panic, recvmsg fd' 16 ∷ h')
recv_other_type codec expected files fd fd' m message env env' h' e t ne s d =
    let sent_eq : sent fd (send codec fd m env []).1
        ≡ plain (header codec message) ∷ plain message ∷ [] =
      ap (sent fd) (send_ok codec fd m message env [] e s) ∙ rw (eq_refl fd) in
    let d' = subst (Delivers files env' fd' h') sent_eq d in
    let differ : (codec.type_id == expected.type_id) ≡ false = ground arith in
    recv_start expected files fd' (plain (header codec message)) (plain message ∷ []) env' h' d'
    ∙ rw (header_id codec message t, differ) (unfold ◌>>=◌ in refl)
