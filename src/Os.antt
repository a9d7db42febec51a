-- ===== src/Os.antt =====
-- The operating system as the library sees it: code under src/ calls it through std, libc and nix,
-- and none of those is in the repository. An `Env` is any system: it answers each call from the
-- calls made before it. A program of type `Sys E A` runs in an environment, extends the history of
-- calls (newest first), and returns, fails with an `E`, panics, ends the process, or is replaced by
-- another program.
pub mod Calls
pub mod Laws
pub mod Ensures
pub mod Samples
pub mod Traces
pub mod Endings
use minion.Base.{
  ℕ, ◌≡◌, refl, Bool, true, false, Option, none, some, List, [], ◌∷◌, Text, if◌then◌else◌,
}
use Calls.{Call}

abbrev pub History : Type 0
History = List Call

-- A message read from a socket: its bytes and the descriptors that came with it, if any did.
pub record Packet : Type 0 where
  pub payload : Text
  pub rights : Option (List ℕ)

pub data WaitStatus : Type 0 where
  exited : ℕ → ℕ → WaitStatus
  signaled : ℕ → ℕ → WaitStatus
  still_alive : WaitStatus
  other : WaitStatus

-- `status` is the error code of a call, `none` if it succeeds; the others are what a successful
-- call yields, by the kind of its result.
pub record Env : Type 0 where
  pub status : History → Call → Option ℕ
  pub number : History → Call → ℕ
  pub pair : History → Call → ℕ × ℕ
  pub text : History → Call → Text
  pub packet : History → Call → Packet
  pub waited : History → Call → WaitStatus
  pub numbers : History → Call → List ℕ

pub data Outcome (E A : Type 0) : Type 0 where
  ok : A → Outcome E A
  err : E → Outcome E A
  panic : Outcome E A
  exit : ℕ → Outcome E A
  replaced : Outcome E A

pub data Result (E A : Type 0) : Type 0 where
  success : A → Result E A
  failure : E → Result E A

abbrev pub Sys : Type 0 → Type 0 → Type 0
Sys E A = Env → History → Outcome E A × History

module _ {E A : Type 0} where
  unfoldable pub pure : A → Sys E A
  pure a env h = (ok a, h)

  unfoldable pub fail : E → Sys E A
  fail e env h = (err e, h)

  unfoldable pub abort : Sys E A
  abort env h = (panic, h)

  unfoldable pub leave : ℕ → Sys E A
  leave code env h = (exit code, h)

  unfoldable pub lift : Result E A → Sys E A
  lift (success a) env h = (ok a, h)
  lift (failure e) env h = (err e, h)

module _ {E F A : Type 0} where
  abbrev pub mapped : (E → F) → Outcome E A → Outcome F A
  mapped f (ok a) = ok a
  mapped f (err e) = err (f e)
  mapped f panic = panic
  mapped f (exit code) = exit code
  mapped f replaced = replaced

  -- `Result::map_err`
  unfoldable pub map_err : (E → F) → Sys E A → Sys F A
  map_err f m env h = (mapped f (m env h).0, (m env h).1)

  abbrev pub caught : Outcome E A → Outcome F (Result E A)
  caught (ok a) = ok (success a)
  caught (err e) = ok (failure e)
  caught panic = panic
  caught (exit code) = exit code
  caught replaced = replaced

  -- The value of a fallible expression that is not propagated.
  unfoldable pub attempt : Sys E A → Sys F (Result E A)
  attempt m env h = (caught (m env h).0, (m env h).1)

  abbrev pub unwrapped : Outcome E A → Outcome F A
  unwrapped (ok a) = ok a
  unwrapped (err e) = panic
  unwrapped panic = panic
  unwrapped (exit code) = exit code
  unwrapped replaced = replaced

  -- `.unwrap()` and `.expect(…)`
  unfoldable pub unwrap : Sys E A → Sys F A
  unwrap m env h = (unwrapped (m env h).0, (m env h).1)

  abbrev forgotten : Outcome E A → Outcome F (Unit {0})
  forgotten (ok a) = ok tt
  forgotten (err e) = ok tt
  forgotten panic = panic
  forgotten (exit code) = exit code
  forgotten replaced = replaced

  -- `.ok()` on a result that nothing reads.
  unfoldable pub ignore : Sys E A → Sys F (Unit {0})
  ignore m env h = (forgotten (m env h).0, (m env h).1)

abbrev answer : {A : Type 0} → Option ℕ → A → Outcome ℕ A
answer none a = ok a
answer (some errno) a = err errno

-- A call that only succeeds or fails, and calls with a result; each is recorded.
unfoldable pub sys : Call → Sys ℕ (Unit {0})
sys c env h = (answer (env.status h c) tt, c ∷ h)

unfoldable pub sys_number : Call → Sys ℕ ℕ
sys_number c env h = (answer (env.status h c) (env.number h c), c ∷ h)

-- A call that does not return if it succeeds: the process runs another program from then on.
unfoldable pub sys_replace : Call → Sys ℕ (Unit {0})
sys_replace c env h = (elim (env.status h c) [ none ↦ replaced | some errno ↦ err errno ], c ∷ h)

-- A value that the system always gives, as `std::process::id` does.
unfoldable pub sys_value : {E : Type 0} → Call → Sys E ℕ
sys_value c env h = (ok (env.number h c), c ∷ h)

unfoldable pub sys_pair : Call → Sys ℕ (ℕ × ℕ)
sys_pair c env h = (answer (env.status h c) (env.pair h c), c ∷ h)

unfoldable pub sys_text : Call → Sys ℕ Text
sys_text c env h = (answer (env.status h c) (env.text h c), c ∷ h)

-- The status that a command ends with, and what it wrote.
unfoldable pub sys_output : Call → Sys ℕ (ℕ × Text)
sys_output c env h = (answer (env.status h c) (env.number h c, env.text h c), c ∷ h)

unfoldable pub sys_packet : Call → Sys ℕ Packet
sys_packet c env h = (answer (env.status h c) (env.packet h c), c ∷ h)

unfoldable pub sys_wait : Call → Sys ℕ WaitStatus
sys_wait c env h = (answer (env.status h c) (env.waited h c), c ∷ h)

unfoldable pub sys_numbers : Call → Sys ℕ (List ℕ)
sys_numbers c env h = (answer (env.status h c) (env.numbers h c), c ∷ h)

module _ {E A B : Type 0} where
  abbrev pub continue : Outcome E A × History → (A → Sys E B) → Env → Outcome E B × History
  continue (ok a, h) f env = f a env h
  continue (err e, h) f env = (err e, h)
  continue (panic, h) f env = (panic, h)
  continue (exit code, h) f env = (exit code, h)
  continue (replaced, h) f env = (replaced, h)

  infixl 5 ◌>>=◌ ◌>>◌
  -- `e?` followed by the rest. Opening this opens everything above.
  unfoldable pub ◌>>=◌ : Sys E A → (A → Sys E B) → Sys E B
  unfolding pure fail abort leave lift map_err attempt unwrap ignore sys sys_number sys_replace
      sys_value sys_pair sys_text sys_output sys_packet sys_wait sys_numbers
  ◌>>=◌ m f env h = continue (m env h) f env

  unfoldable pub ◌>>◌ : Sys E A → Sys E B → Sys E B
  unfolding ◌>>=◌
  m >> k = m >>= λ _. k
