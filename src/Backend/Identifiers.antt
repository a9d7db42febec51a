-- ===== src/Backend/Identifiers.antt =====
-- The user identifiers of the sandboxes of a `LinuxBackend` of src/linux.rs after any calls.
use minion.Base.{Bool, ℕ, ◌≡◌, refl, sym, subst, [], Text}
use minion.Os.{Env, History, Sys, ok}
use minion.Os.Ensures.{Ensures-then, Ensures, Ensures-pure, Ensures-bind, Ensures-elim}
use minion.Settings.{Settings}
use minion.Errors.{Error}
use minion.Jail.{JailOptions, ZygoteStartupInfo, Codecs}
use minion.Limits.Driver.{OpaqueEnterHandle}
use minion.Sandbox.Create.{Programs}
use minion.Backend
use minion.Backend.{
  LinuxBackend, at, put, linux, known, keep_sandbox, keep_child, keep_future, waiting, updated,
  changed,
}
use minion.Backend.Separation.{IsSeparate}
use minion.Backend.Requests.{serve, Reach, here, next}
use minion.Backend.Upkeep.{Separate, serve-Separate}

abbrev Fresh : LinuxBackend → Type 0
Fresh w = w.sandboxes ≡ []

new-Fresh :
    (suffixes : ℕ → Text) (settings : Settings) → Ensures Fresh (Backend.new suffixes settings)
unfolding Backend.new
new-Fresh suffixes settings =
    Ensures-then Fresh _ _
      (Ensures-bind Fresh _ _ λ d. Ensures-bind Fresh _ _ λ u. Ensures-pure Error Fresh _ refl)

Fresh-Separate : (w : LinuxBackend) → Fresh w → Separate w
unfolding at
Fresh-Separate w e = subst (IsSeparate w.uid_alloc) (sym e) (record {
  used = λ i u (s, h, own). cc;
  in_range = λ i u (s, h, own). absurd cc;
  apart = λ i j u (s, h, own). absurd cc;
})

module _ (gen : Programs) (start : JailOptions → OpaqueEnterHandle → Sys Error ZygoteStartupInfo)
    (codecs : Codecs) (draws : ℕ → ℕ → ℕ) (entered : Bool) where
  Reach-Separate :
      {w x : LinuxBackend} → Separate w → Reach gen start codecs draws entered w x → Separate x
  Reach-Separate v here = v
  Reach-Separate v (next {x} {y} r q env h e) =
      Ensures-elim Separate (serve gen start codecs draws entered q x)
        (serve-Separate gen start codecs draws entered q x (Reach-Separate v r)) env h e

  -- After any calls on a backend that was made by `new`, and drops of its sandboxes, whatever the
  -- system answers, no two
  -- sandboxes of the backend have the same user identifier, and each identifier of a sandbox is in
  -- use and lies in the allocator's range.
  pub sandboxes-IsSeparate :
      (suffixes : ℕ → Text) (settings : Settings) (env : Env) (h : History) {w x : LinuxBackend}
      → (Backend.new suffixes settings env h).0 ≡ ok w
      → Reach gen start codecs draws entered w x
      → IsSeparate x.uid_alloc x.sandboxes
  sandboxes-IsSeparate suffixes settings env h {w} made r =
      Reach-Separate
        (Fresh-Separate w (
          Ensures-elim Fresh (Backend.new suffixes settings) (new-Fresh suffixes settings) env h
            made))
        r
