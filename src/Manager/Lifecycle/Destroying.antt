-- ===== src/Manager/Lifecycle/Destroying.antt =====
-- crates/sandbox-manager/src/management/service/impls/destroy_sandbox.rs: what the destruction of a
-- sandbox leaves, wherever it fails, and where it cannot be tried again.
use ephemeral_sandbox.Prelude.{
  ◌≡◌, refl, sym, ap, ◌∙◌, subst, Bool, true, false, ◌||◌, none, some, arith, ◌∷◌, dropped, find,
  if◌then◌else◌,
}
use ephemeral_sandbox.Manager.Model.{
  SandboxId, SandboxState, creating, stopping, stopped, failed, state_eq, SandboxRecord,
  RegistryAction, registry_persist_failed, invalid_state_transition, ManagerError, Outcome, done,
  refused,
}
use ephemeral_sandbox.Manager.Store.{
  Codec, SandboxStore, inspect, seen, transition_state, set_state, remove,
}
use ephemeral_sandbox.Manager.Store.Listing.{Keyed}
use ephemeral_sandbox.Manager.Store.Keyed.{find-Keyed}
use ephemeral_sandbox.Manager.Store.Spec.{removes, moves, sets_state, run, target, wanted}
use ephemeral_sandbox.Manager.Lifecycle.{
  Ports, Machine, stops, destroys, is_some, after_remove, after_stopped, after_destroy, after_stop,
  after_stopping, after_inspect, destroy_sandbox,
}
use ephemeral_sandbox.Manager.Lifecycle.Effects.{
  Kept, Kept-trans, Replies, accepted, unsaved, run-Settled,
}

-- A sandbox in one of these states is not destroyed.
abbrev pub is_busy : SandboxState → Bool
is_busy s = state_eq s creating || state_eq s stopping

inspect-found :
    (store : SandboxStore) (id : SandboxId) (r : SandboxRecord)
    → store.poisoned ≡ false
    → find id store.records ≡ some r
    → inspect store id ≡ done r
unfolding inspect seen
inspect-found store id r open_ at = ground arith

state_eq_refl : (s : SandboxState) → state_eq s s ≡ true
unfolding state_eq
state_eq_refl s = ground arith

module _ (codec : Codec) (ports : Ports) where
  pub destroy_sandbox_busy :
      (machine : Machine) (id : SandboxId) (r : SandboxRecord)
      → machine.store.poisoned ≡ false
      → find id machine.store.records ≡ some r
      → is_busy r.state ≡ true
      → destroy_sandbox codec ports machine id
        ≡ (machine, refused (invalid_state_transition id r.state stopping))
  unfolding destroy_sandbox after_inspect
  destroy_sandbox_busy machine id r open_ at busy =
      rw (inspect-found machine.store id r open_ at, busy)

-- The daemon has been stopped, if there is one.
abbrev pub Halted : Ports → SandboxRecord → Type 0
Halted ports r =
    (if is_some r.daemon then ports.stop_daemon (record r { state = stopping }) else done tt)
    ≡ done tt

-- The runtime has destroyed the sandbox, after its daemon was stopped.
abbrev pub Granted : Ports → SandboxRecord → Type 0
Granted ports r = Halted ports r × (ports.destroy_sandbox (record r { state = stopping }) ≡ done tt)

-- What a destruction leaves at the id, and why.
pub data Destroyed (ports : Ports) (id : SandboxId) (r : SandboxRecord) (before after : Machine)
    : Outcome SandboxRecord → Type 0 where
  -- No record and no container; the ring is gone if it could be removed.
  gone :
      find id after.store.records ≡ none
      → after.containers ≡ dropped id before.containers
      → after.rings ≡ (if ports.remove_ring id then dropped id before.rings else before.rings)
      → Granted ports r
      → Destroyed ports id r before after (done (record r { state = stopped }))
  -- No record and no container, with an old registry.
  gone_unsaved :
      {action : RegistryAction}
      → find id after.store.records ≡ none
      → after.containers ≡ dropped id before.containers
      → after.rings ≡ before.rings
      → Granted ports r
      → Destroyed ports id r before after (refused (registry_persist_failed action))
  -- No container, and a record in the state stopped.
  stopped_unsaved :
      {action : RegistryAction}
      → find id after.store.records ≡ some (record r { state = stopped })
      → after.containers ≡ dropped id before.containers
      → after.rings ≡ before.rings
      → Granted ports r
      → Destroyed ports id r before after (refused (registry_persist_failed action))
  -- The runtime has refused, and the record is marked as failed.
  marked_failed :
      {e : ManagerError}
      → find id after.store.records ≡ some (record r { state = failed })
      → after.containers ≡ before.containers
      → after.rings ≡ before.rings
      → Halted ports r
      → ports.destroy_sandbox (record r { state = stopping }) ≡ refused e
      → Destroyed ports id r before after (refused e)
  -- The daemon could not be stopped, and the record stays in the state stopping.
  held :
      {e : ManagerError}
      → find id after.store.records ≡ some (record r { state = stopping })
      → after.containers ≡ before.containers
      → after.rings ≡ before.rings
      → is_some r.daemon ≡ true
      → ports.stop_daemon (record r { state = stopping }) ≡ refused e
      → Destroyed ports id r before after (refused e)
  -- The registry could not be written with the state stopping, and nothing is asked of the runtime.
  held_unsaved :
      {action : RegistryAction}
      → find id after.store.records ≡ some (record r { state = stopping })
      → after.containers ≡ before.containers
      → after.rings ≡ before.rings
      → after.calls ≡ before.calls
      → Destroyed ports id r before after (refused (registry_persist_failed action))

module _ (codec : Codec) (ports : Ports) (before : Machine) (r : SandboxRecord)
    (open_ : before.store.poisoned ≡ false) where
  abbrev Ended : Machine × Outcome SandboxRecord → Type 0
  Ended result =
      Destroyed ports r.id r before result.0 result.1 × Kept r.id before.store result.0.store

  remove-Ended :
      (machine : Machine) (store : SandboxStore) {reply : Outcome SandboxRecord}
      → Kept r.id before.store store
      → find r.id store.records ≡ none
      → machine.containers ≡ dropped r.id before.containers
      → machine.rings ≡ before.rings
      → Granted ports r
      → Replies (record r { state = stopped }) reply
      → Ended (after_remove codec ports machine r.id (store, reply))
  unfolding after_remove
  remove-Ended machine store kept at c g asked accepted = (
    gone at c (ap (λ rings. if ports.remove_ring r.id then dropped r.id rings else rings) g) asked,
    kept,
  )
  remove-Ended machine store kept at c g asked (unsaved action) = (gone_unsaved at c g asked, kept)

  stopped-Ended :
      (machine : Machine) (store : SandboxStore) {reply : Outcome SandboxRecord}
      → Kept r.id before.store store
      → find r.id store.records ≡ some (record r { state = stopped })
      → machine.containers ≡ dropped r.id before.containers
      → machine.rings ≡ before.rings
      → Granted ports r
      → Replies (record r { state = stopped }) reply
      → Ended (after_stopped codec ports machine r.id (store, reply))
  unfolding after_stopped run target wanted
  stopped-Ended machine store kept at c g asked accepted =
      let s =
        run-Settled codec store (removes r.id) none (record r { state = stopped }) kept.keyed
          (kept.lock ∙ open_) (rw at) in
      remove-Ended machine (remove codec store r.id).0
        (Kept-trans r.id before.store store _ kept s.kept) s.holds c g asked s.replies
  stopped-Ended machine store kept at c g asked (unsaved action) =
      (stopped_unsaved at c g asked, kept)

  abbrev halfway : SandboxRecord
  halfway = record r { state = stopping }

  destroy-Ended :
      (machine : Machine) (o : Outcome (Unit {0}))
      → Kept r.id before.store machine.store
      → find r.id machine.store.records ≡ some halfway
      → machine.containers ≡ before.containers
      → machine.rings ≡ before.rings
      → Halted ports r
      → ports.destroy_sandbox halfway ≡ o
      → Ended (after_destroy codec ports machine halfway o)
  unfolding after_destroy run target wanted
  destroy-Ended machine (done _) kept at c g h e =
      let next = record r { state = stopped } in
      let s =
        run-Settled codec machine.store (sets_state r.id stopped) (some next) next kept.keyed
          (kept.lock ∙ open_) (rw at) in
      stopped-Ended (record machine { containers = dropped r.id machine.containers })
        (set_state codec machine.store r.id stopped).0
        (Kept-trans r.id before.store machine.store _ kept s.kept) s.holds (ap (dropped r.id) c) g
        (h, e) s.replies
  destroy-Ended machine (refused error) kept at c g h e =
      let next = record r { state = failed } in
      let s =
        run-Settled codec machine.store (sets_state r.id failed) (some next) next kept.keyed
          (kept.lock ∙ open_) (rw at) in
      (marked_failed s.holds c g h e, Kept-trans r.id before.store machine.store _ kept s.kept)

  stop-Ended :
      (machine : Machine) (o : Outcome (Unit {0}))
      → Kept r.id before.store machine.store
      → find r.id machine.store.records ≡ some halfway
      → machine.containers ≡ before.containers
      → machine.rings ≡ before.rings
      → (if is_some r.daemon then ports.stop_daemon halfway else done tt) ≡ o
      → Ended (after_stop codec ports machine halfway o)
  unfolding after_stop
  stop-Ended machine (done _) kept at c g e =
      destroy-Ended (record machine { calls = destroys halfway ∷ machine.calls })
        (ports.destroy_sandbox halfway) kept at c g e refl
  stop-Ended machine (refused error) kept at c g e =
      let a = asked (is_some r.daemon) e in (held at c g a.0 a.1, kept)
    where
      asked :
          (b : Bool)
          → (if b then ports.stop_daemon halfway else done tt) ≡ refused error
          → (b ≡ true) × (ports.stop_daemon halfway ≡ refused error)
      asked true h = (refl, h)
      asked false h = absurd (cc)

  stopping-Ended :
      (store : SandboxStore) {reply : Outcome SandboxRecord}
      → Kept r.id before.store store
      → find r.id store.records ≡ some halfway
      → Replies halfway reply
      → Ended (after_stopping codec ports before (store, reply))
  unfolding after_stopping
  stopping-Ended store kept at accepted =
      stop-Ended
        (record before {
          store = store;
          calls = (if is_some r.daemon then stops halfway ∷ before.calls else before.calls);
        })
        (if is_some r.daemon then ports.stop_daemon halfway else done tt) kept at refl refl refl
  stopping-Ended store kept at (unsaved action) = (held_unsaved at refl refl refl, kept)

  inspect-Ended :
      Keyed before.store.records
      → find r.id before.store.records ≡ some r
      → is_busy r.state ≡ false
      → Ended (after_inspect codec ports before r.id (done r))
  unfolding after_inspect run target wanted
  inspect-Ended keyed at free =
      let s =
        run-Settled codec before.store (moves r.id r.state stopping) (some halfway) halfway keyed
          open_ (rw (at, state_eq_refl r.state)) in
      rw free (
        stopping-Ended (transition_state codec before.store r.id r.state stopping).0 s.kept s.holds
          s.replies)

  -- Where the daemon cannot be stopped, whether the state was written or not.
  refusing-held :
      (store : SandboxStore) {e : ManagerError} {reply : Outcome SandboxRecord}
      → Kept r.id before.store store
      → find r.id store.records ≡ some halfway
      → is_some r.daemon ≡ true
      → ports.stop_daemon halfway ≡ refused e
      → Replies halfway reply
      → let result = after_stopping codec ports before (store, reply) in
        (find r.id result.0.store.records ≡ some halfway)
        × (result.0.containers ≡ before.containers)
        × (result.0.store.poisoned ≡ before.store.poisoned)
  unfolding after_stopping after_stop
  refusing-held store kept at daemon stop accepted =
      rw (daemon, stop, after_stop) (at, refl, kept.lock)
  refusing-held store kept at daemon stop (unsaved action) = (at, refl, kept.lock)

  abbrev Held : SandboxId → Machine × Outcome SandboxRecord → Type 0
  Held id result =
      (find id result.0.store.records ≡ some halfway)
      × (result.0.containers ≡ before.containers)
      × (result.0.store.poisoned ≡ before.store.poisoned)

  inspect-Held :
      {e : ManagerError}
      → Keyed before.store.records
      → find r.id before.store.records ≡ some r
      → is_busy r.state ≡ false
      → is_some r.daemon ≡ true
      → ports.stop_daemon halfway ≡ refused e
      → Held r.id (after_inspect codec ports before r.id (done r))
  unfolding after_inspect run target wanted
  inspect-Held keyed at free daemon stop =
      let s =
        run-Settled codec before.store (moves r.id r.state stopping) (some halfway) halfway keyed
          open_ (rw (at, state_eq_refl r.state)) in
      rw free (
        refusing-held (transition_state codec before.store r.id r.state stopping).0 s.kept s.holds
          daemon stop s.replies)

-- The destruction of a sandbox that is neither created nor stopped at the moment, under an open lock,
-- succeeds only where the daemon, if there is one, has been stopped and then the runtime has destroyed
-- the sandbox, and leaves no record and no container. An error leaves the container exactly where the
-- runtime has not destroyed it, and the record tells the step that failed: gone or in the state
-- stopped, where the registry could not be written after the destruction; failed, where the runtime
-- refused; stopping, where the daemon could not be stopped, or where the registry could not be written
-- before, and then nothing was asked. The other ids hold what they held.
pub destroy_sandbox-Destroyed :
    (codec : Codec) (ports : Ports) (machine : Machine) (id : SandboxId) (r : SandboxRecord)
    → Keyed machine.store.records
    → machine.store.poisoned ≡ false
    → find id machine.store.records ≡ some r
    → is_busy r.state ≡ false
    → let result = destroy_sandbox codec ports machine id in
      Destroyed ports id r machine result.0 result.1 × Kept id machine.store result.0.store
unfolding destroy_sandbox
destroy_sandbox-Destroyed codec ports machine id r keyed open_ at free =
    rw (inspect-found machine.store id r open_ at) (
      subst
        (λ i.
          let result = after_inspect codec ports machine i (done r) in
          Destroyed ports i r machine result.0 result.1 × Kept i machine.store result.0.store)
        own
        (inspect-Ended codec ports machine r open_ keyed
          (subst (λ i. find i machine.store.records ≡ some r) (sym own) at) free))
  where
    own : r.id ≡ id
    own = find-Keyed id machine.store.records r keyed at

-- Where the daemon of a sandbox cannot be stopped, the destruction leaves its container, and every
-- later destruction is refused, since the record stays in the state stopping.
pub destroy_sandbox-stuck :
    (codec : Codec) (ports : Ports) (machine : Machine) (id : SandboxId) (r : SandboxRecord)
    (e : ManagerError)
    → Keyed machine.store.records
    → machine.store.poisoned ≡ false
    → find id machine.store.records ≡ some r
    → is_busy r.state ≡ false
    → is_some r.daemon ≡ true
    → ports.stop_daemon (record r { state = stopping }) ≡ refused e
    → let after = (destroy_sandbox codec ports machine id).0 in
      (after.containers ≡ machine.containers)
      × (destroy_sandbox codec ports after id
          ≡ (after, refused (invalid_state_transition id stopping stopping)))
unfolding destroy_sandbox state_eq
destroy_sandbox-stuck codec ports machine id r e keyed open_ at free daemon stop =
    let h = held in
    (
      h.1,
      destroy_sandbox_busy codec ports (destroy_sandbox codec ports machine id).0 id
          (record r { state = stopping }) (h.2 ∙ open_) h.0 refl,
    )
  where
    own : r.id ≡ id
    own = find-Keyed id machine.store.records r keyed at

    held : Held codec ports machine r open_ id (destroy_sandbox codec ports machine id)
    held = rw (inspect-found machine.store id r open_ at) (
        subst
          (λ i. Held codec ports machine r open_ i (after_inspect codec ports machine i (done r)))
          own
          (inspect-Held codec ports machine r open_ keyed
            (subst (λ i. find i machine.store.records ≡ some r) (sym own) at) free daemon stop))
