-- ===== src/Command/Tests.antt =====
-- The builder of src/command.rs at concrete sequences of settings.
use minion.Base.{◌≡◌, refl, ℕ, Text, none, some, List, [], ◌∷◌, bytes}
use minion.Command.{build, new, spawn}
use minion.Command.Settings.{
  Setting, with_sandbox, with_path, with_arg, with_args, with_env, configure, built,
  build-configure, spawn-configure,
}

abbrev settings : List (Setting ℕ)
settings =
    with_arg (bytes "a")
    ∷ with_path (bytes "/x")
    ∷ with_sandbox 7
    ∷ with_args (bytes "b" ∷ bytes "c" ∷ [])
    ∷ with_env (bytes "K=V")
    ∷ with_path (bytes "/y")
    ∷ []

nothing_set : build (new {S = ℕ}) ≡ none
unfolding build new
nothing_set = refl

build-configure_example : build (configure new settings) ≡ some (built (bytes "/y") settings)
build-configure_example = build-configure settings

spawn-configure_example :
    spawn {R = List Text × ℕ} (λ options s. (options.arguments, s)) (configure new settings)
    ≡ some (bytes "a" ∷ bytes "b" ∷ bytes "c" ∷ [], 7)
spawn-configure_example = spawn-configure (λ options s. (options.arguments, s)) settings
