-- ===== src/Sandbox/Tests.antt =====
-- The theorems on src/linux/sandbox.rs at a concrete sandbox.
use minion.Base.{◌≡◌, ◌⊎◌, ◌≤◌, ◌<◌, refl, true, false, none, some, List, [], ◌∷◌, bytes, text_eq}
use minion.Os.{ok, err, success, failure, Result, History, Sys, ◌>>◌, ◌>>=◌}
use minion.Os.Samples.{quiet}
use minion.Options.{SandboxOptions}
use minion.Settings.{Settings, unrestricted}
use minion.Errors.{Error, DriverError, ipc, serde}
use minion.Os.Calls.{close, kill}
use minion.Limits.Types.{InternalResourceUsageData}
use minion.Jail.{Codecs, JailOptions, ZygoteStartupInfo, drop_zygote, send_term_signals}
use minion.Fds.{drop_fd}
use minion.Uids.{UidAllocator, allocate, deallocate, scan, insert, contains, remove, without}
use minion.Limits.Driver
use minion.Limits.Driver.{Driver, prlimit, OpaqueEnterHandle}
use minion.Limits.Prlimit
use minion.Sandbox.{
  LinuxSandbox, cpu_tle, real_tle, heartbeat, check_cpu_tle, check_real_tle, convert_shared_items,
  drop, reclaim_uid, take_zygote,
}
use minion.Sandbox.Create.{
  Programs, Created, create, enter, grouped, started, chosen, converted, choose_uid, finish,
}
use minion.Ipc.{Codec, send}
use minion.Os.Ensures.{Ensures}
use minion.Sandbox.Watchdog.{Watch, Tick, round}
use minion.Sandbox.Limits.{IsOver, IsWithin, acted, beat, round_exact, check_tle_exact}
use minion.Sandbox.Uid.{create-uids, drop-create}

abbrev options : SandboxOptions
options = record {
  max_alive_process_count = 1;
  memory_limit = 1000;
  cpu_time_limit = 10;
  real_time_limit = 20;
  isolation_root = bytes "/root";
  shared_items = [];
}

abbrev programs : Programs
programs = record { unrestricted_program = []; deny_dangerous_program = []; pure_program = [] }

abbrev settings : Settings
settings = record {
  allow_unsupported_mount_namespace = false;
  cgroup = record { name_prefix = bytes "/minion"; mount = bytes "/c" };
  resource_drivers = [];
  rootless = false;
  uid = record { low = 5; high = 7 };
  seccomp = unrestricted;
}

abbrev start : JailOptions → OpaqueEnterHandle → Sys Error ZygoteStartupInfo
start o handle env h = (ok (record { socket = 3; zygote_pid = 9 }), h)

-- A zygote that does not start, since its process cannot be made.
abbrev refuse : JailOptions → OpaqueEnterHandle → Sys Error ZygoteStartupInfo
refuse o handle env h = (err (Error.syscall 11), h)

abbrev fresh : UidAllocator
fresh = record { low = 5; high = 7; used = [] }

abbrev one_taken : UidAllocator
one_taken = record { low = 5; high = 7; used = 5 ∷ [] }

abbrev driver : Driver
driver = prlimit (record { groups = []; allow_multiple_processes = false })

abbrev late : LinuxSandbox
late = record {
  id = bytes "j";
  options = options;
  zygote = some (record { sock = 3; pid = 9 });
  state = record { was_cpu_tle = false; was_wall_tle = false };
  watchdog_chan = heartbeat ∷ real_tle ∷ [];
  dealloc_uid = some 5;
}

abbrev begun : LinuxSandbox
begun = record late { watchdog_chan = [] }

abbrev made : Created
made = record {
  result = success begun;
  uids = one_taken;
  driver = prlimit (record {
    groups = (bytes "j", record { zygote = some 0 }) ∷ [];
    allow_multiple_processes = false;
  });
}

check_tle_exact_example :
    ((check_cpu_tle late).1 ≡ false)
    × ((check_real_tle late).1 ≡ true)
    × ((check_cpu_tle late).0 ≡ (check_real_tle late).0)
    × ((check_cpu_tle late).0.watchdog_chan ≡ [])
    × ((check_real_tle (check_cpu_tle late).0).1 ≡ (check_real_tle late).1)
    × ((check_cpu_tle (check_real_tle late).0).1 ≡ (check_cpu_tle late).1)
check_tle_exact_example = check_tle_exact late

-- The identifier of a sandbox whose zygote did not start.
abbrev refused : Created
refused = record made {
  result = failure (Error.syscall 11);
  driver = prlimit (record {
    groups = (bytes "j", record { zygote = none }) ∷ [];
    allow_multiple_processes = false;
  });
}

create-uids_example : refused.uids ≡ one_taken
unfolding create enter grouped started chosen converted choose_uid finish convert_shared_items
    allocate scan insert contains ◌>>◌ Driver.create_group Driver.register_group_details
    Driver.drop_handle Prlimit.create_group Prlimit.register_group_details text_eq
create-uids_example =
    create-uids Error programs refuse 0 settings options (bytes "j") true fresh one_taken 5 []
      driver quiet [] refused refl refl refl refl

drop-create_example : fresh ≡ fresh
unfolding create enter grouped started chosen converted choose_uid finish convert_shared_items
    allocate scan insert contains ◌>>◌ Driver.create_group Driver.register_group_details
    Driver.drop_handle Prlimit.create_group Prlimit.register_group_details text_eq drop reclaim_uid
    deallocate remove without drop_zygote send_term_signals drop_fd
drop-create_example =
    drop-create Error programs start 0 settings options (bytes "j") true fresh one_taken 5 [] driver
      quiet [] made refl refl refl refl begun true quiet [] made.driver fresh refl refl

abbrev no_codec : {T : Type 0} → Codec T
no_codec = record { type_id = 1; to_vec = λ m. some []; from_slice = λ s. none }

abbrev watched : Watch
watched = record { sent = []; zygote = some (record { sock = 3; pid = 9 }) }

-- A request to the zygote that cannot be written, so that the usage is unknown.
abbrev mute : Codecs
mute = record {
  query = record { type_id = 1; to_vec = λ m. none; from_slice = λ s. none };
  usage = no_codec;
  startup = no_codec;
  exit_code = no_codec;
}

abbrev unknown : Result DriverError InternalResourceUsageData
unknown = failure (DriverError.prlimit (ipc serde))

abbrev tick : Tick
tick = record { connected = true; elapsed = 5 }

abbrev killed : History
killed = close 3 ∷ kill 9 6 ∷ kill 9 15 ∷ kill 9 9 ∷ []

round_exact_example :
    (IsOver 10 unknown
      × (round mute made.driver (bytes "j") 10 20 {E = Error} tick watched quiet []
          ≡ (ok (acted watched cpu_tle, true), killed)))
    ⊎ (IsWithin 10 unknown
        × (20 < 5)
        × (round mute made.driver (bytes "j") 10 20 {E = Error} tick watched quiet []
            ≡ (ok (acted watched real_tle, true), killed)))
    ⊎ (IsWithin 10 unknown
        × (5 ≤ 20)
        × (round mute made.driver (bytes "j") 10 20 {E = Error} tick watched quiet []
            ≡ (ok (beat watched, false), [])))
unfolding Driver.resource_usage Prlimit.resource_usage Prlimit.lookup text_eq send drop_zygote
    send_term_signals drop_fd take_zygote ◌>>◌ ◌>>=◌
round_exact_example =
    round_exact {E = Error} quiet watched mute made.driver (bytes "j") 10 20 tick unknown [] []
      killed refl refl refl

abbrev ticks : List Tick
ticks = record { connected = true; elapsed = 5 } ∷ record { connected = true; elapsed = 30 } ∷ []
