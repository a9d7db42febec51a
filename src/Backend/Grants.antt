-- ===== src/Backend/Grants.antt =====
-- Which user identifiers `LinuxSandbox::create` of src/linux/sandbox.rs takes for a new sandbox.
use minion.Base.{
  ℕ, ◌≤◌, ◌<◌, ◌≡◌, refl, sym, subst, ◌∙◌, inl, inr, Bool, true, false, Option, none, some, List,
  ◌∷◌, Text, arith, Option-cases,
}
use minion.Os.{Sys, Result, success, failure}
use minion.Os.Ensures.{Ensures, Ensures-pure, Ensures-weaken}
use minion.Options.{SandboxOptions}
use minion.Settings.{Settings}
use minion.Errors.{Error}
use minion.Uids.{UidAllocator, contains, allocate}
use minion.Uids.Laws.{allocate_lowest_free, allocate-none}
use minion.Jail.{JailOptions, LinuxSharedItem, ZygoteStartupInfo}
use minion.Limits.Driver.{Driver, OpaqueEnterHandle}
use minion.Sandbox.{LinuxSandbox, convert_shared_items}
use minion.Sandbox.Create.{Programs, Created, enter, chosen, converted, create, choose_uid}
use minion.Sandbox.Uid.{Holds, Keeps, enter-Keeps}

-- Every identifier in use stays in use, and the range stays.
pub record Extends (a b : UidAllocator) : Type 0 where
  pub low : b.low ≡ a.low
  pub high : b.high ≡ a.high
  pub used : (u : ℕ) → contains a.used u ≡ true → contains b.used u ≡ true

-- An identifier that was taken between the two states.
pub record IsTaken (a b : UidAllocator) (u : ℕ) : Type 0 where
  pub was_free : contains a.used u ≡ false
  pub used : contains b.used u ≡ true
  pub above : a.low ≤ u
  pub below : u < a.high

Extends-refl : (a : UidAllocator) → Extends a a
Extends-refl a = record { low = refl; high = refl; used = λ u e. e }

-- The outcome of a creation: a sandbox with an identifier of its own has a new one.
pub record Granted (a : UidAllocator) (c : Created) : Type 0 where
  pub extends : Extends a c.uids
  pub fresh :
      (s : LinuxSandbox) (u : ℕ)
      → c.result ≡ success s
      → s.dealloc_uid ≡ some u
      → IsTaken a c.uids u

record Allowed (a b : UidAllocator) (uid : Option ℕ) : Type 0 where
  extends : Extends a b
  fresh : (u : ℕ) → uid ≡ some u → IsTaken a b u

abbrev Chooses : UidAllocator → UidAllocator × Result Error (Option ℕ) → Type 0
Chooses a (b, failure e) = Extends a b
Chooses a (b, success uid) = Allowed a b uid

taken-Extends : (a : UidAllocator) (uid : ℕ) → Extends a (record a { used = uid ∷ a.used })
unfolding contains
taken-Extends a uid = record { low = refl; high = refl; used = λ u e. ground arith }

allocated-Allowed :
    (a : UidAllocator) (uid : ℕ) → (allocate a).1 ≡ some uid → Allowed a (allocate a).0 (some uid)
allocated-Allowed a uid e =
    let (l, g, free, _, after) = allocate_lowest_free a uid e in
    rw after (record {
      extends = taken-Extends a uid;
      fresh = λ u same.
          let same' : u ≡ uid = cc in
          rw same' (record {
            was_free = free;
            used = unfold contains in ground arith;
            above = l;
            below = g;
          });
    })

allocate-Chooses :
    (a : UidAllocator)
    → Chooses a (
      (allocate a).0,
      elim (allocate a).1 [ none ↦ failure Error.uid_exhausted | some u ↦ success (some u) ],
    )
allocate-Chooses a = elim (Option-cases (allocate a).1) [
  | inl e ↦ rw (e, (allocate-none a e).1) (Extends-refl a)
  | inr (uid, e) ↦ rw e (allocated-Allowed a uid e)
]

choose_uid-Chooses : (rootless : Bool) (a : UidAllocator) → Chooses a (choose_uid rootless a)
unfolding choose_uid
choose_uid-Chooses true a = record { extends = Extends-refl a; fresh = λ u e. cc }
choose_uid-Chooses false a = allocate-Chooses a

module _ (gen : Programs) (start : JailOptions → OpaqueEnterHandle → Sys Error ZygoteStartupInfo)
    (slot : ℕ) (settings : Settings) (o : SandboxOptions) (jail_id : Text) (entered : Bool)
    (a : UidAllocator) where
  Keeps-Granted :
      (b : UidAllocator) (uid : Option ℕ) (c : Created)
      → Allowed a b uid
      → Keeps b uid c
      → Granted a c
  Keeps-Granted b uid c allowed (same, holds) = rw same (record {
    extends = allowed.extends;
    fresh = λ s u created own. allowed.fresh u (sym (subst (Holds uid) created holds) ∙ own);
  })

  chosen-Granted :
      (r : UidAllocator × Result Error (Option ℕ)) (items : List LinuxSharedItem) (driver : Driver)
      → Chooses a r
      → Ensures {E = ⊥}
          (Granted a)
          (chosen gen start slot settings o jail_id entered items driver r)
  unfolding chosen
  chosen-Granted (b, failure e) items driver extends =
      Ensures-pure ⊥ (Granted a) _ (record { extends = extends; fresh = λ s u e'. cc })
  chosen-Granted (b, success uid) items driver allowed =
      Ensures-weaken (Keeps b uid) (Granted a)
        (enter gen start slot settings o jail_id entered b driver uid items)
        (λ c. Keeps-Granted b uid c allowed)
        (enter-Keeps ⊥ gen start slot settings o jail_id entered b driver uid items)

  converted-Granted :
      (r : Result Error (List LinuxSharedItem)) (driver : Driver)
      → Ensures {E = ⊥} (Granted a) (converted gen start slot settings o jail_id entered a driver r)
  unfolding converted
  converted-Granted (failure e) driver =
      Ensures-pure ⊥ (Granted a) _ (record { extends = Extends-refl a; fresh = λ s u e'. cc })
  converted-Granted (success items) driver =
      chosen-Granted (choose_uid settings.rootless a) items driver
        (choose_uid-Chooses settings.rootless a)

  pub create-Granted :
      (driver : Driver)
      → Ensures {E = ⊥} (Granted a) (create gen start slot settings o jail_id entered a driver)
  unfolding create
  create-Granted driver = converted-Granted (convert_shared_items o.shared_items) driver
