-- ===== src/Ffi/Passing.antt =====
-- What `minion_cp_spawn` of minion-ffi/src/lib.rs asks the backend for.
use minion.Base.{ℕ, ◌<◌, ◌≡◌, refl, some, List, [], map, Text, length}
use minion.Options
use minion.Options.{InputSpecification, OutputSpecification}
use minion.Erased.{ErasedBackend, DynSandbox}
use minion.Ffi.{ChildProcessOptions}
use minion.Ffi.Memory.{Memory, value, address_space}
use minion.Ffi.Memory.Layout.{
  StringAt, Strings, Variables, assignment, get_string-StringAt, arguments-Strings,
  environment-Variables,
}
use minion.Ffi.Objects.{backend, sandbox, child, Library, lookup, made}
use minion.Ffi.Process.{process_options, cp_spawn}

-- The process that a caller describes.
pub record Described : Type 0 where
  pub path : Text
  pub arguments : List Text
  pub variables : List (Text × Text)
  pub pwd : Text

-- The memory holds the description where the options point.
pub record Describes (mem : Memory) (o : ChildProcessOptions) (d : Described) : Type 0 where
  pub path : StringAt mem o.image_path d.path
  pub arguments : Strings mem o.argv d.arguments
  pub variables : Variables mem o.envp d.variables
  pub pwd : StringAt mem o.workdir d.pwd
  pub few_arguments : length d.arguments < address_space
  pub few_variables : length d.variables < address_space

abbrev pub requested : ChildProcessOptions → Described → Options.ChildProcessOptions
requested o d = record {
  path = d.path;
  arguments = d.arguments;
  environment = map assignment d.variables;
  stdio = record {
    stdin = InputSpecification.handle (record { raw = o.stdio.stdin });
    stdout = OutputSpecification.handle (record { raw = o.stdio.stdout });
    stderr = OutputSpecification.handle (record { raw = o.stdio.stderr });
  };
  extra_inherit = [];
  pwd = d.pwd;
}

process_options-Describes :
    (mem : Memory) (o : ChildProcessOptions) (d : Described)
    → Describes mem o d
    → process_options mem o ≡ value (requested o d)
unfolding process_options
process_options-Describes mem o d h =
    rw
      (
        arguments-Strings mem address_space o.argv d.arguments h.arguments h.few_arguments,
        environment-Variables mem address_space o.envp d.variables h.variables h.few_variables,
        get_string-StringAt mem o.image_path d.path h.path,
        get_string-StringAt mem o.workdir d.pwd h.pwd,
      )
      refl

-- A process that the caller laid out in memory is asked of the backend as it was described: its
-- path, its arguments and its directory, the variables as assignments, all of them in order, in the
-- sandbox pointed to. Nothing else is inherited but the three streams.
pub cp_spawn-requests :
    {F W : Type 0} (b : ErasedBackend F W) (mem : Memory) (p fresh k j : ℕ)
    (o : ChildProcessOptions) (d : Described) (s : DynSandbox) (l : Library W)
    → lookup p l.boxes ≡ some (backend k)
    → lookup o.sandbox l.boxes ≡ some (sandbox j s)
    → Describes mem o d
    → cp_spawn b mem p o fresh l
      ≡ made fresh j (child j) (λ options. b.spawn options s) (value (requested o d)) l
unfolding cp_spawn
cp_spawn-requests b mem p fresh k j o d s l at_p at_s h =
    rw (at_p, cp_spawn, at_s, process_options-Describes mem o d h) refl
