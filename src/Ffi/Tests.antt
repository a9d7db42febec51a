-- ===== src/Ffi/Tests.antt =====
-- The theorems on minion-ffi/src/lib.rs at a concrete caller.
use minion.Base.{ℕ, ◌≢◌, ◌≡◌, refl, true, false, none, some, List, [], ◌∷◌, arith, bytes}
use minion.Os.{Sys, ok}
use minion.Os.Samples.{quiet}
use minion.Settings.{Settings, unrestricted}
use minion.Errors.{Error}
use minion.Ipc.{Codec, from_ne_bytes}
use minion.Jail.{JailOptions, ZygoteStartupInfo, Codecs}
use minion.Limits.Driver.{prlimit, OpaqueEnterHandle}
use minion.Sandbox.Create.{Programs}
use minion.Child.{LinuxChildProcess}
use minion.Erased.{ErasedBackend, erase}
use minion.Backend
use minion.Backend.{LinuxBackend, linux, at, put, waiting, keep_future, new_future}
use minion.Ffi.{ChildProcessOptions, SandboxOptions, TimeSpec, ErrorCode, duration}
use minion.Ffi.Memory.{Memory, value, bytes_at, number_at, shared_items, get_string, c_str}
use minion.Ffi.Memory.Layout.{StringAt}
use minion.Ffi.Objects.{
  backend, sandbox, child, Library, returned, lookup, sandbox_options, sandbox_create, made,
}
use minion.Ffi.Outside.{sandbox_create-never_returns}
use minion.Options
use minion.Ffi.Process.{cp_spawn}
use minion.Ffi.Passing.{Described, Describes, requested, cp_spawn-requests}

abbrev programs : Programs
programs = record { unrestricted_program = []; deny_dangerous_program = []; pure_program = [] }

abbrev settings : Settings
settings = record {
  allow_unsupported_mount_namespace = false;
  cgroup = record { name_prefix = bytes "/minion"; mount = bytes "/c" };
  resource_drivers = [];
  rootless = false;
  uid = record { low = 5; high = 7 };
  seccomp = unrestricted;
}

abbrev start : JailOptions → OpaqueEnterHandle → Sys Error ZygoteStartupInfo
start o handle env h = (ok (record { socket = 3; zygote_pid = 9 }), h)

abbrev no_codec : {T : Type 0} → Codec T
no_codec = record { type_id = 1; to_vec = λ m. some []; from_slice = λ s. none }

abbrev codecs : Codecs
codecs = record { query = no_codec; usage = no_codec; startup = no_codec; exit_code = no_codec }

abbrev draws : ℕ → ℕ → ℕ
draws slot n = 0

abbrev running : LinuxChildProcess
running = record { stdin = none; stdout = none; stderr = none; pid = 9; fd = some 4 }

abbrev world : LinuxChildProcess → List Backend.LinuxFuture → LinuxBackend
world c futures = record {
  settings = settings;
  driver = prlimit (record { groups = []; allow_multiple_processes = false });
  uid_alloc = record { low = 5; high = 7; used = [] };
  sandboxes = [];
  children = (c, 0) ∷ [];
  futures = futures;
}

abbrev library : LinuxBackend → Library LinuxBackend
library w = record {
  hook = true;
  worlds = w ∷ [];
  boxes =
      (32, backend 0)
      ∷ (33, sandbox 0 (record { type_id = 1; address = 0 }))
      ∷ (34, child 0 0)
      ∷ [];
}

abbrev soon : TimeSpec
soon = record { seconds = 0; nanoseconds = 5 }

abbrev into : Error → Error
into e = e

abbrev api : ErasedBackend Error LinuxBackend
api = erase into (linux programs start codecs draws false 1)

abbrev before : Library LinuxBackend
before = library (world running [])

-- The path `/b` at 1, then a pointer to it and a null pointer, from 4 on.
abbrev memory : Memory
memory p =
    at (0 ∷ 47 ∷ 98 ∷ 0 ∷ 1 ∷ 0 ∷ 0 ∷ 0 ∷ 0 ∷ 0 ∷ 0 ∷ 0 ∷ 0 ∷ 0 ∷ 0 ∷ 0 ∷ 0 ∷ 0 ∷ 0 ∷ 0 ∷ []) p

abbrev call : ChildProcessOptions
call = record {
  image_path = 1;
  argv = 4;
  envp = 12;
  stdio = record { stdin = 0; stdout = 1; stderr = 2 };
  sandbox = 33;
  workdir = 1;
}

abbrev described : Described
described = record {
  path = bytes "/b";
  arguments = bytes "/b" ∷ [];
  variables = [];
  pwd = bytes "/b";
}

path_at : StringAt memory 1 (bytes "/b")
unfolding at
path_at =
    ((λ e. omega arith), (refl, (λ e. omega arith), (refl, (λ e. omega arith), refl)), omega arith)

call-Describes : Describes memory call described
unfolding number_at bytes_at from_ne_bytes at
call-Describes = record {
  path = path_at;
  arguments = (1, refl, path_at, refl);
  variables = refl;
  pwd = path_at;
  few_arguments = omega arith;
  few_variables = omega arith;
}

cp_spawn-requests_example :
    cp_spawn api memory 32 call 60 before
    ≡ made 60 0
        (child 0)
        (λ options. api.spawn options (record { type_id = 1; address = 0 }))
        (value (requested call described))
        before
unfolding lookup
cp_spawn-requests_example =
    cp_spawn-requests api memory 32 60 0 0 call described (record { type_id = 1; address = 0 })
      before refl refl call-Describes

-- An empty path for the root at 3, and no shared items: the list of them at 4 ends at once.
abbrev nothing : SandboxOptions
nothing = record {
  cpu_time_limit = soon;
  real_time_limit = soon;
  process_limit = 1;
  memory_limit = 0;
  isolation_root = 3;
  shared_items = 4;
}

abbrev read_options : Options.SandboxOptions
read_options = record {
  max_alive_process_count = 1;
  memory_limit = 0;
  cpu_time_limit = 5;
  real_time_limit = 5;
  isolation_root = [];
  shared_items = [];
}

sandbox_create-never_returns_example :
    (sandbox_create api (λ s. true) memory 32 nothing 40 before quiet []).0
    ≢ ok (returned ErrorCode.ok (some 40), before)
unfolding lookup sandbox_options shared_items get_string c_str number_at bytes_at from_ne_bytes at
    duration
sandbox_create-never_returns_example =
    sandbox_create-never_returns into programs start codecs draws 1 (λ s. true) memory 32 0 nothing
      40 before read_options quiet [] (returned ErrorCode.ok (some 40), before) refl refl
