-- ===== src/Sandbox/Uid.antt =====
-- What becomes of the identifier of a sandbox in src/linux/sandbox.rs.
use minion.Base.{ℕ, ◌≡◌, refl, sym, ap, subst, Bool, false, Option, some, List, Text}
use minion.Os.{Sys, Env, History, Result, success, failure, ok, ◌>>=◌}
use minion.Os.Ensures.{
  Ensures, Ensures-pure, Ensures-elim, Ensures-bind, Ensures-chain, Ensures-then,
}
use minion.Options.{SandboxOptions}
use minion.Settings.{Settings}
use minion.Errors.{Error, DriverError}
use minion.Uids.{UidAllocator, allocate, deallocate}
use minion.Uids.Laws.{deallocate-allocate}
use minion.Jail.{JailOptions, LinuxSharedItem, ZygoteStartupInfo}
use minion.Limits.Driver.{Driver, OpaqueEnterHandle}
use minion.Sandbox.{LinuxSandbox, convert_shared_items, reclaim_uid, drop}
use minion.Sandbox.Create.{
  Programs, Created, finish, started, grouped, enter, chosen, converted, create, choose_uid,
}

-- The identifier that a created sandbox holds.
abbrev pub Holds : Option ℕ → Result Error LinuxSandbox → Type 0
Holds uid (success s) = s.dealloc_uid ≡ uid
Holds uid (failure e) = Unit

abbrev pub Keeps : UidAllocator → Option ℕ → Created → Type 0
Keeps uids uid c = (c.uids ≡ uids) × Holds uid c.result

deallocate-allocated :
    (uids uids' : UidAllocator) (uid : ℕ)
    → allocate uids ≡ (uids', some uid)
    → deallocate uids' uid ≡ some uids
deallocate-allocated uids uids' uid e =
    subst (λ r. deallocate r.0 uid ≡ some uids) e (deallocate-allocate uids uid (ap (λ r. r.1) e))

module _ (E : Type 0) (keep : Bool) (s : LinuxSandbox) (held uids : UidAllocator) (uid : ℕ)
    (driver : Driver) where
  reclaimed :
      s.dealloc_uid ≡ some uid
      → deallocate held uid ≡ some uids
      → Ensures {E = E} (λ u. u ≡ uids) (reclaim_uid s.dealloc_uid held)
  unfolding reclaim_uid ◌>>=◌
  reclaimed own back env h = rw (own, reclaim_uid, back) refl

  drop_restores :
      s.dealloc_uid ≡ some uid
      → deallocate held uid ≡ some uids
      → Ensures {E = E} (λ r. r.0 ≡ uids) (drop keep s held driver)
  unfolding drop
  drop_restores own back =
      Ensures-chain (λ u. u ≡ uids) (λ r. r.0 ≡ uids) _ _ (reclaimed own back)
        λ u same.
          Ensures-bind (λ r. r.0 ≡ uids) _ _
            λ s'.
              Ensures-bind (λ r. r.0 ≡ uids) _ _ λ driver'. Ensures-pure E (λ r. r.0 ≡ uids) _ same

module _ (E : Type 0) (gen : Programs)
    (start : JailOptions → OpaqueEnterHandle → Sys Error ZygoteStartupInfo) (slot : ℕ)
    (settings : Settings) (o : SandboxOptions) (jail_id : Text) (entered : Bool) where
  finish-Keeps :
      (uids : UidAllocator) (driver : Driver) (uid : Option ℕ) (handle : OpaqueEnterHandle)
      (info : ZygoteStartupInfo)
      → Ensures {E = E}
          (Keeps uids uid)
          (finish gen start slot settings o jail_id entered uids driver uid handle info)
  unfolding finish
  finish-Keeps uids driver uid handle info = Ensures-bind (Keeps uids uid) _ _ λ driver'.
      Ensures-then (Keeps uids uid) _ _
        (Ensures-then (Keeps uids uid) _ _ (Ensures-pure E (Keeps uids uid) _ (refl, refl)))

  started-Keeps :
      (uids : UidAllocator) (driver : Driver) (uid : Option ℕ) (handle : OpaqueEnterHandle)
      (r : Result Error ZygoteStartupInfo)
      → Ensures {E = E}
          (Keeps uids uid)
          (started gen start slot settings o jail_id entered uids driver uid handle r)
  unfolding started
  started-Keeps uids driver uid handle (failure e) =
      Ensures-then (Keeps uids uid) _ _ (Ensures-pure E (Keeps uids uid) _ (refl, tt))
  started-Keeps uids driver uid handle (success info) = finish-Keeps uids driver uid handle info

  grouped-Keeps :
      (uids : UidAllocator) (driver : Driver) (uid : Option ℕ) (items : List LinuxSharedItem)
      (r : Result DriverError (Driver × OpaqueEnterHandle))
      → Ensures {E = E}
          (Keeps uids uid)
          (grouped gen start slot settings o jail_id entered uids driver uid items r)
  unfolding grouped
  grouped-Keeps uids driver uid items (failure e) = Ensures-pure E (Keeps uids uid) _ (refl, tt)
  grouped-Keeps uids driver uid items (success (driver', handle)) =
      Ensures-bind (Keeps uids uid) _ _ (started-Keeps uids driver' uid handle)

  pub enter-Keeps :
      (uids : UidAllocator) (driver : Driver) (uid : Option ℕ) (items : List LinuxSharedItem)
      → Ensures {E = E}
          (Keeps uids uid)
          (enter gen start slot settings o jail_id entered uids driver uid items)
  unfolding enter
  enter-Keeps uids driver uid items =
      Ensures-bind (Keeps uids uid) _ _ (grouped-Keeps uids driver uid items)

  create-Keeps :
      (uids uids' : UidAllocator) (uid : ℕ) (items : List LinuxSharedItem) (driver : Driver)
      → convert_shared_items o.shared_items ≡ success items
      → settings.rootless ≡ false
      → allocate uids ≡ (uids', some uid)
      → Ensures {E = E}
          (Keeps uids' (some uid))
          (create gen start slot settings o jail_id entered uids driver)
  unfolding create converted chosen
  create-Keeps uids uids' uid items driver convert rootless allocated =
      let identifier : choose_uid settings.rootless uids ≡ (uids', success (some uid)) =
        unfold choose_uid in rw (rootless, allocated) in
      subst
        (λ r.
          Ensures {E = E} (Keeps uids' (some uid))
            (converted gen start slot settings o jail_id entered uids driver r))
        (sym convert)
        (subst
          (λ r.
            Ensures {E = E} (Keeps uids' (some uid))
              (chosen gen start slot settings o jail_id entered items driver r))
          (sym identifier) (enter-Keeps uids' driver (some uid) items))

  module _ (uids uids' : UidAllocator) (uid : ℕ) (items : List LinuxSharedItem) (driver : Driver)
      (env : Env) (h : History) (c : Created)
      (convert : convert_shared_items o.shared_items ≡ success items)
      (rootless : settings.rootless ≡ false) (allocated : allocate uids ≡ (uids', some uid))
      (result : (create gen start slot settings o jail_id entered {E = E} uids driver env h).0
        ≡ ok c) where
    created-Keeps : Keeps uids' (some uid) c
    created-Keeps =
        Ensures-elim (Keeps uids' (some uid))
          (create gen start slot settings o jail_id entered {E = E} uids driver)
          (create-Keeps uids uids' uid items driver convert rootless allocated) env h result

    -- Once the creation of a sandbox has allocated an identifier, the identifier stays taken when the
    -- creation returns, with a sandbox or with an error.
    pub create-uids : c.uids ≡ uids'
    create-uids = created-Keeps.0

    -- If a sandbox was created with an identifier of its own, and its drop returns, the allocator
    -- is as it was before the creation.
    pub drop-create :
        (s : LinuxSandbox) (keep : Bool) (env' : Env) (h' : History) (d : Driver)
        (left : UidAllocator)
        → c.result ≡ success s
        → (drop {E = E} keep s c.uids c.driver env' h').0 ≡ ok (left, d)
        → left ≡ uids
    drop-create s keep env' h' d left created dropped =
        Ensures-elim (λ r. r.0 ≡ uids) (drop keep s c.uids c.driver)
          (drop_restores E keep s c.uids uids uid c.driver
            (subst (Holds (some uid)) created created-Keeps.1)
            (rw create-uids (deallocate-allocated uids uids' uid allocated)))
          env' h' dropped
