-- ===== src/Backend/Tests.antt =====
-- The theorems on `LinuxBackend` at a concrete backend.
use minion.Base.{◌≡◌, ℕ, refl, true, false, none, some, List, [], ◌∷◌, Text, bytes, text_eq}
use minion.Child
use minion.Child.{LinuxChildProcess}
use minion.Os
use minion.Os.{ok, panic, Sys, ◌>>◌, ◌>>=◌}
use minion.Os.Samples.{quiet}
use minion.Options.{SandboxOptions, postprocess}
use minion.Settings.{Settings, unrestricted}
use minion.Settings
use minion.Errors.{Error}
use minion.Ipc.{Codec}
use minion.Jail.{JailOptions, ZygoteStartupInfo, Codecs, gen_jail_id, gen_id}
use minion.Uids
use minion.Uids.{UidAllocator, allocate, scan, insert, contains}
use minion.Limits.Driver
use minion.Limits.Driver.{
  Driver, prlimit, OpaqueEnterHandle, select, smoke_check, new_raw, create_group, handle_access,
  drop_handle,
}
use minion.Limits.Configs.{process_kinds, process_driver_kind}
use minion.Limits.Prlimit
use minion.Limits.Prlimit.{Group}
use minion.Sandbox.{LinuxSandbox, convert_shared_items}
use minion.Sandbox
use minion.Sandbox.Create.{
  Programs, create, enter, grouped, started, chosen, converted, choose_uid, finish,
}
use minion.Backend
use minion.Backend.{
  LinuxBackend, pidfd_supported, pidfd_check, keep_sandbox, allocator, waiting, new_future,
  keep_future, at, put, updated, known,
}
use minion.Backend.Requests.{new_sandbox, check_cpu_tle, serve, here, next}
use minion.Backend.Separation.{IsSeparate}
use minion.Backend.Spent.{wait_for_exit-once}
use minion.Backend.Identifiers.{sandboxes-IsSeparate}

abbrev options : SandboxOptions
options = record {
  max_alive_process_count = 1;
  memory_limit = 1000;
  cpu_time_limit = 10;
  real_time_limit = 20;
  isolation_root = bytes "/root";
  shared_items = [];
}

abbrev programs : Programs
programs = record { unrestricted_program = []; deny_dangerous_program = []; pure_program = [] }

abbrev settings : Settings
settings = record {
  allow_unsupported_mount_namespace = false;
  cgroup = record { name_prefix = bytes "/minion"; mount = bytes "/c" };
  resource_drivers = Settings.prlimit ∷ [];
  rootless = false;
  uid = record { low = 5; high = 7 };
  seccomp = unrestricted;
}

abbrev start : JailOptions → OpaqueEnterHandle → Sys Error ZygoteStartupInfo
start o handle env h = (ok (record { socket = 3; zygote_pid = 9 }), h)

abbrev no_codec : {T : Type 0} → Codec T
no_codec = record { type_id = 1; to_vec = λ m. some []; from_slice = λ s. none }

abbrev codecs : Codecs
codecs = record { query = no_codec; usage = no_codec; startup = no_codec; exit_code = no_codec }

abbrev draws : ℕ → ℕ → ℕ
draws slot n = 0

abbrev suffixes : ℕ → Text
suffixes n = bytes "s"

abbrev access_check : List (Text × Group)
access_check = (bytes "minion-cgroup-access-check-s", record { zygote = none }) ∷ []

abbrev made : LinuxBackend
made = record {
  settings = settings;
  driver = prlimit (record { groups = access_check; allow_multiple_processes = true });
  uid_alloc = record { low = 5; high = 7; used = [] };
  sandboxes = [];
  children = [];
  futures = [];
}

abbrev jail : LinuxSandbox
jail = record {
  id = gen_jail_id (draws 0);
  options = postprocess options;
  zygote = some (record { sock = 3; pid = 9 });
  state = record { was_cpu_tle = false; was_wall_tle = false };
  watchdog_chan = [];
  dealloc_uid = some 5;
}

abbrev populated : LinuxBackend
populated = record made {
  driver = prlimit (record {
    groups = (gen_jail_id (draws 0), record { zygote = some 0 }) ∷ access_check;
    allow_multiple_processes = true;
  });
  uid_alloc = record { low = 5; high = 7; used = 5 ∷ [] };
  sandboxes = jail ∷ [];
}

sandboxes-IsSeparate_example : IsSeparate populated.uid_alloc populated.sandboxes
unfolding Backend.new pidfd_supported pidfd_check Driver.new select smoke_check new_raw
    process_kinds process_driver_kind create_group handle_access Prlimit.create_group
    Prlimit.check_access drop_handle ◌>>◌ ◌>>=◌ Uids.new allocator serve Backend.new_sandbox
    keep_sandbox create enter grouped started chosen converted choose_uid finish
    convert_shared_items allocate scan insert contains Driver.register_group_details
    Prlimit.register_group_details text_eq gen_jail_id gen_id postprocess
sandboxes-IsSeparate_example =
    sandboxes-IsSeparate programs start codecs draws true suffixes settings quiet [] refl
      (next here (new_sandbox options) quiet [] refl)

abbrev running : LinuxChildProcess
running = record { stdin = none; stdout = none; stderr = none; pid = 9; fd = some 4 }

abbrev waited : LinuxBackend
waited = record populated {
  children = (record running { fd = none }, 0) ∷ [];
  futures = record { inner = 4; sandbox = 0; pid = 9 } ∷ [];
}

wait_for_exit-once_example :
    (Backend.wait_for_exit programs start codecs draws true 0 waited quiet []).0 ≡ panic
unfolding Backend.wait_for_exit waiting Child.wait_for_exit new_future keep_future at put ◌>>=◌
    serve Backend.check_cpu_tle updated known Sandbox.check_cpu_tle Sandbox.poll_state
    Sandbox.process_flags
wait_for_exit-once_example =
    wait_for_exit-once programs start codecs draws true 0
      (record populated { children = (running, 0) ∷ [] }) waited (Os.success 0) quiet quiet [] []
      refl (next here (check_cpu_tle 0) quiet [] refl)
