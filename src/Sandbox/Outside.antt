-- ===== src/Sandbox/Outside.antt =====
-- What `LinuxSandbox::create` of src/linux/sandbox.rs does outside of a runtime of tokio.
use minion.Base.{
  ℕ, ◌≡◌, refl, Bool, true, false, ◌&&◌, Option, List, Text, ltb, u64_limit, if◌then◌else◌,
}
use minion.Os.{Sys, Result, success, failure, pure, ◌>>◌}
use minion.Os.Ensures.{
  Ensures, Ensures-pure, Ensures-abort, Ensures-bind, Ensures-then, Ensures-chain,
}
use minion.Options.{SandboxOptions}
use minion.Settings.{Settings}
use minion.Errors.{Error, DriverError}
use minion.Uids.{UidAllocator}
use minion.Jail.{JailOptions, LinuxSharedItem, ZygoteStartupInfo}
use minion.Limits.Driver.{Driver, OpaqueEnterHandle}
use minion.Sandbox.{LinuxSandbox, convert_shared_items}
use minion.Sandbox.Create.{
  Programs, Created, unwind, spawn_watchdog, finish, started, grouped, enter, chosen, converted,
  create, choose_uid,
}

-- The creation made no sandbox.
abbrev pub Refused : Created → Type 0
Refused c = (e : Error) × (c.result ≡ failure e)

abbrev Impossible : {A : Type 0} → A → Type 0
Impossible a = ⊥

-- What comes after a step that never returns does not happen.
Ensures-never :
    {E A B : Type 0} (P : B → Type 0) (m : Sys E A) (k : Sys E B)
    → Ensures (λ a. ⊥) m
    → Ensures P (m >> k)
unfolding ◌>>◌
Ensures-never P m k never =
    Ensures-chain (λ a. ⊥) P m (λ _. k) never λ a impossible. absurd impossible

module _ (E : Type 0) (gen : Programs)
    (start : JailOptions → OpaqueEnterHandle → Sys Error ZygoteStartupInfo) (slot : ℕ)
    (settings : Settings) (o : SandboxOptions) (jail_id : Text) where
  unwind-Impossible :
      (s : LinuxSandbox) (uids : UidAllocator) (driver : Driver) (handle : OpaqueEnterHandle)
      → Ensures {E = E} Impossible
          (unwind gen start slot settings o jail_id false s uids driver handle)
  unfolding unwind
  unwind-Impossible s uids driver handle = Ensures-bind Impossible _ _ λ var.
      Ensures-bind Impossible _ _ λ r. Ensures-then Impossible _ _ (Ensures-abort E Impossible)

  guarded :
      (b : Bool) (m : Sys E (Unit {0}))
      → Ensures Impossible m
      → Ensures Impossible (if b && false then pure tt else m)
  guarded true m p = p
  guarded false m p = p

  spawn_watchdog-Impossible :
      (s : LinuxSandbox) (uids : UidAllocator) (driver : Driver) (handle : OpaqueEnterHandle)
      → Ensures {E = E} Impossible
          (spawn_watchdog gen start slot settings o jail_id false s uids driver handle)
  unfolding spawn_watchdog
  spawn_watchdog-Impossible s uids driver handle =
      guarded (ltb o.real_time_limit u64_limit) _ (unwind-Impossible s uids driver handle)

  finish-Refused :
      (uids : UidAllocator) (driver : Driver) (uid : Option ℕ) (handle : OpaqueEnterHandle)
      (info : ZygoteStartupInfo)
      → Ensures {E = E} Refused
          (finish gen start slot settings o jail_id false uids driver uid handle info)
  unfolding finish
  finish-Refused uids driver uid handle info =
      Ensures-bind Refused _ _
        λ driver'. Ensures-never Refused _ _ (spawn_watchdog-Impossible _ uids driver' handle)

  started-Refused :
      (uids : UidAllocator) (driver : Driver) (uid : Option ℕ) (handle : OpaqueEnterHandle)
      (r : Result Error ZygoteStartupInfo)
      → Ensures {E = E} Refused
          (started gen start slot settings o jail_id false uids driver uid handle r)
  unfolding started
  started-Refused uids driver uid handle (failure e) =
      Ensures-then Refused _ _ (Ensures-pure E Refused _ (e, refl))
  started-Refused uids driver uid handle (success info) = finish-Refused uids driver uid handle info

  grouped-Refused :
      (uids : UidAllocator) (driver : Driver) (uid : Option ℕ) (items : List LinuxSharedItem)
      (r : Result DriverError (Driver × OpaqueEnterHandle))
      → Ensures {E = E} Refused
          (grouped gen start slot settings o jail_id false uids driver uid items r)
  unfolding grouped
  grouped-Refused uids driver uid items (failure e) =
      Ensures-pure E Refused _ (Error.resource_limits e, refl)
  grouped-Refused uids driver uid items (success (driver', handle)) =
      Ensures-bind Refused _ _ (started-Refused uids driver' uid handle)

  chosen-Refused :
      (items : List LinuxSharedItem) (driver : Driver) (r : UidAllocator × Result Error (Option ℕ))
      → Ensures {E = E} Refused (chosen gen start slot settings o jail_id false items driver r)
  unfolding chosen enter
  chosen-Refused items driver (uids, failure e) = Ensures-pure E Refused _ (e, refl)
  chosen-Refused items driver (uids, success uid) =
      Ensures-bind Refused _ _ (grouped-Refused uids driver uid items)

  converted-Refused :
      (uids : UidAllocator) (driver : Driver) (r : Result Error (List LinuxSharedItem))
      → Ensures {E = E} Refused (converted gen start slot settings o jail_id false uids driver r)
  unfolding converted
  converted-Refused uids driver (failure e) = Ensures-pure E Refused _ (e, refl)
  converted-Refused uids driver (success items) =
      chosen-Refused items driver (choose_uid settings.rootless uids)

  pub create-Refused :
      (uids : UidAllocator) (driver : Driver)
      → Ensures {E = E} Refused (create gen start slot settings o jail_id false uids driver)
  unfolding create
  create-Refused uids driver = converted-Refused uids driver (convert_shared_items o.shared_items)
