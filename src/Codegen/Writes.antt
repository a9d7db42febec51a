-- ===== src/Codegen/Writes.antt =====
-- What a run of minion-codegen/src/main.rs does to the generated file.
use minion.Base.{
  ℕ, ◌≡◌, refl, ◌∙◌, Bool, true, false, Option, Option-cases, none, some, inl, inr, ◌∷◌, Text,
  if◌then◌else◌,
}
use minion.Os.{
  Env, History, ok, err, Result, success, failure, pure, fail, attempt, map_err, sys, sys_text,
  ◌>>=◌,
}
use minion.Os.Laws.{>>=-ok, >>-ok}
use minion.Os.Calls.{Call, read_to_string, write_file, current_dir}
use minion.Options.Paths.{join}
use minion.Codegen.{
  Context, contents, Error, io, files_were_updated, is_same, put_file, update_file, conclude,
  put_contents, generated_file, gen, main,
}

-- What the file held when it was read.
abbrev pub held : Env → History → Call → Result ℕ Text
held env h c = elim (env.status h c) [ none ↦ success (env.text h c) | some errno ↦ failure errno ]

module _ (compile : Context → Option Text) (s : Text) (env : Env) (h : History) where
  abbrev path : Text
  path = join (env.text h current_dir) generated_file

  abbrev reading : Call
  reading = read_to_string path

  abbrev seen : History
  seen = current_dir ∷ h

  attempted :
      attempt {F = Error} (sys_text reading) env seen ≡ (ok (held env seen reading), reading ∷ seen)
  unfolding attempt sys_text
  attempted = elim (Option-cases (env.status seen reading)) [
    | inl e ↦ rw (e, held) refl
    | inr (errno, e) ↦ rw (e, held) refl
  ]

  located :
      env.status h current_dir ≡ none
      → map_err io (sys_text current_dir) env h ≡ (ok (env.text h current_dir), seen)
  unfolding map_err sys_text
  located known = rw known refl

  written :
      env.status (reading ∷ seen) (write_file path s) ≡ none
      → map_err io (sys (write_file path s)) env (reading ∷ seen)
        ≡ (ok tt, write_file path s ∷ reading ∷ seen)
  unfolding map_err sys
  written writable = rw writable refl

  put_from :
      env.status h current_dir ≡ none
      → put_file generated_file s env h
        ≡ update_file path s (is_same s (held env seen reading)) env (reading ∷ seen)
  unfolding put_file
  put_from known = >>=-ok _ _ env h (located known) ∙ >>=-ok _ _ env seen attempted

  ends :
      (b : Bool)
      → env.status (reading ∷ seen) (write_file path s) ≡ none
      → put_file generated_file s env h ≡ update_file path s b env (reading ∷ seen)
      → (put_file generated_file s >>= conclude) env h ≡ (
          if b
          then (ok tt, reading ∷ seen)
          else (err files_were_updated, write_file path s ∷ reading ∷ seen))
  unfolding update_file conclude pure fail
  ends true writable e = >>=-ok _ _ env h e
  ends false writable e = >>=-ok _ _ env h (e ∙ >>-ok _ _ env (reading ∷ seen) (written writable))

  -- The generator ends well exactly if the file held what it generates; else it writes just that to
  -- the file and ends with an error. The policies compile, the directory is known and a write
  -- succeeds.
  pub main_lem :
      contents compile ≡ some s
      → env.status h current_dir ≡ none
      → env.status (reading ∷ seen) (write_file path s) ≡ none
      → main compile env h ≡ (
          if is_same s (held env seen reading)
          then (ok tt, reading ∷ seen)
          else (err files_were_updated, write_file path s ∷ reading ∷ seen))
  unfolding main gen
  main_lem compiled known writable =
      rw (compiled, put_contents)
        (ends (is_same s (held env seen reading)) writable (put_from known))
