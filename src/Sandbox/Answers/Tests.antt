-- ===== src/Sandbox/Answers/Tests.antt =====
-- An exit code of src/linux/zygote/main_loop.rs on its way over a socket that delivers.
use minion.Base.{ℕ, inr, ◌≡◌, refl, Option, none, some, [], ◌∷◌, ◌++◌, Text, arith}
use minion.Os.{History, Env, exited, ◌>>=◌, Packet, success, ok, ◌>>◌}
use minion.Os.Calls.{recvmsg}
use minion.Os.Samples.{quiet, answering}
use minion.Errors.{Error}
use minion.Ipc.Packets.{Files}
use minion.Ipc.{Codec, to_ne_bytes, send}
use minion.Jail.{ZygoteInfo, Codecs}
use minion.Zygote.Loop.{Task, report_task, exit_code_of}
use minion.Sandbox.Jobs.{poll}
use minion.Sandbox.Answers.{poll-report_task}

abbrev no_codec : {T : Type 0} → Codec T
no_codec = record { type_id = 1; to_vec = λ m. some []; from_slice = λ s. none }

abbrev byte : Text → Option ℕ
byte [] = none
byte (b ∷ s) = some b

abbrev codecs : Codecs
codecs = record {
  query = no_codec;
  usage = no_codec;
  startup = no_codec;
  exit_code = record { type_id = 77; to_vec = λ n. some (n ∷ []); from_slice = byte };
}

-- The header of the message `9 ∷ []`, then the message.
abbrev packets : History → Packet
packets (recvmsg fd n ∷ h) = record { payload = 9 ∷ []; rights = none }
packets h = record { payload = to_ne_bytes 8 1 ++ to_ne_bytes 8 77; rights = none }

abbrev info : ZygoteInfo
info = record { sock = 6; pid = 100 }

-- A task that was never reaped: the system says how its process ended.
abbrev running : Task
running = record { pid = 4; notify = none; exit_code = none }

abbrev zygote_env : Env
zygote_env = record quiet { waited = λ h c. exited 4 9 }

abbrev files : Files
files = record { sender = λ fd. fd; receiver = λ fd. fd }

poll-report_task_example :
    (poll codecs {E = Error} (some (success tt)) (some info) 4 (answering 0 packets) []).0
    ≡ ok (some (success (record { code = 9 })))
unfolding report_task exit_code_of send to_ne_bytes ◌>>◌ ◌>>=◌
poll-report_task_example =
    poll-report_task codecs files info 5 4 9 running (9 ∷ []) zygote_env (answering 0 packets) []
      (inr (refl, refl, refl)) refl refl (omega arith) (omega arith) refl
      (λ n. (
        refl,
        record { payload = refl; rights = tt },
        λ m. (refl, record { payload = refl; rights = tt }, tt),
      ))
