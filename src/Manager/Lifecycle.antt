-- ===== src/Manager/Lifecycle.antt =====
-- crates/sandbox-manager/src/management/service/impls/create_sandbox.rs, destroy_sandbox.rs and
-- router/forward.rs: what the manager does with the store, the container runtime and the daemons.
-- Progress messages are left out.
pub mod Effects
pub mod Creating
pub mod Destroying
use mathlib.Core.List.{reverse}
use ephemeral_sandbox.Prelude.{
  ℕ, zero, suc, ◌+◌, Bool, true, false, ◌&&◌, ◌||◌, not, Option, none, some, List, [], ◌∷◌, Text,
  text_eq, dropped, if◌then◌else◌,
}
use ephemeral_sandbox.Manager.Model.{
  SandboxId, SandboxState, creating, ready, stopping, stopped, failed, state_eq, SharedBaseMount,
  SandboxResourceProfile, SandboxDaemonEndpoint, SandboxHttpEndpoint, SandboxRecord, record_new,
  ManagerError, invalid_state_transition, daemon_unavailable, Outcome, done, refused,
}
use ephemeral_sandbox.Manager.Store.{
  Codec, SandboxStore, Reply, create_with_shared_base_and_profile, remove, transition_state,
  set_state, update_endpoints, advance_activity_revision, inspect,
}

pub record CreateSandboxRequest : Type 0 where
  pub image : Text
  pub workspace_root : Text
  pub shared_base : Option SharedBaseMount

pub record CreateSandboxResult : Type 0 where
  pub id : SandboxId
  pub resource_profile : Option SandboxResourceProfile

pub record StartedDaemon : Type 0 where
  pub daemon : SandboxDaemonEndpoint
  pub daemon_http : Option SandboxHttpEndpoint

-- The traits `SandboxRuntime` and `SandboxDaemonInstaller`, the building of the shared base, and the
-- removal of a resource ring. A creation also depends on how many have been made before.
pub record Ports : Type 0 where
  pub create_sandbox : ℕ → CreateSandboxRequest → Outcome CreateSandboxResult
  pub destroy_sandbox : SandboxRecord → Outcome (Unit {0})
  pub install_daemon : SandboxRecord → Outcome (Unit {0})
  pub start_daemon : SandboxRecord → Outcome StartedDaemon
  pub stop_daemon : SandboxRecord → Outcome (Unit {0})
  pub check_daemon : SandboxRecord → SandboxDaemonEndpoint → Outcome (Unit {0})
  pub shared_base_mount : Text → Outcome SharedBaseMount
  pub remove_ring : SandboxId → Bool

-- A call that stops the daemon of a record, or destroys its container.
pub data Call : Type 0 where
  stops destroys : SandboxRecord → Call

-- The store, the ids that have a container, those that have a resource ring, the creations so far, and
-- the calls above, the newest first.
pub record Machine : Type 0 where
  pub store : SandboxStore
  pub containers : List SandboxId
  pub rings : List SandboxId
  pub creations : ℕ
  pub calls : List Call

unfoldable pub is_some : {A : Type 0} → Option A → Bool
is_some none = false
is_some (some _) = true

module _ (codec : Codec) (ports : Ports) where
  -- `let _ = services.runtime.destroy_sandbox(record)`.
  unfoldable pub destroyed : Machine → SandboxRecord → Machine
  destroyed machine r = elim (ports.destroy_sandbox r) [
    | done _ ↦ record machine {
      containers = dropped r.id machine.containers;
      calls = destroys r ∷ machine.calls;
    }
    | refused _ ↦ record machine { calls = destroys r ∷ machine.calls }
  ]

  -- The result of `stop_daemon` is dropped too.
  unfoldable pub rollback : Machine → SandboxRecord → Machine
  unfolding destroyed
  rollback machine r =
      let machine' = destroyed (record machine { calls = stops r ∷ machine.calls }) r in
      record machine' { store = (remove codec machine'.store r.id).0 }

  unfoldable pub provision_daemon : SandboxRecord → Outcome StartedDaemon
  provision_daemon r = elim (ports.install_daemon r) [
    | refused e ↦ refused e
    | done _ ↦ elim (ports.start_daemon r) [
      | refused e ↦ refused e
      | done started ↦ elim (ports.check_daemon r started.daemon) [
        | refused e ↦ refused e
        | done _ ↦ done started
      ]
    ]
  ]

  -- The steps of `create_one`, each from what the one before it has returned.
  unfoldable pub after_ready :
      Machine → SandboxRecord → Reply SandboxRecord → Machine × Outcome SandboxRecord
  unfolding rollback
  after_ready machine r (store, done ready') = (record machine { store = store }, done ready')
  after_ready machine r (store, refused e) =
      (rollback (record machine { store = store }) r, refused e)

  unfoldable pub after_endpoints :
      Machine → SandboxRecord → Reply SandboxRecord → Machine × Outcome SandboxRecord
  unfolding rollback after_ready
  after_endpoints machine r (store, done _) =
      after_ready machine r (transition_state codec store r.id creating ready)
  after_endpoints machine r (store, refused e) =
      (rollback (record machine { store = store }) r, refused e)

  unfoldable pub after_provision :
      Machine → SandboxRecord → Outcome StartedDaemon → Machine × Outcome SandboxRecord
  unfolding rollback after_endpoints
  after_provision machine r (done started) =
      after_endpoints machine r
        (update_endpoints codec machine.store r.id (some started.daemon) started.daemon_http)
  after_provision machine r (refused e) = (rollback machine r, refused e)

  unfoldable pub after_record :
      Machine → SandboxRecord → Reply SandboxRecord → Machine × Outcome SandboxRecord
  unfolding destroyed after_provision provision_daemon
  after_record machine untracked (store, done r) =
      after_provision (record machine { store = store }) r (provision_daemon r)
  after_record machine untracked (store, refused e) =
      (destroyed (record machine { store = store }) untracked, refused e)

  unfoldable pub after_create :
      Machine
      → Text
      → SharedBaseMount
      → Outcome CreateSandboxResult
      → Machine × Outcome SandboxRecord
  unfolding after_record record_new
  after_create machine root base (refused e) = (machine, refused e)
  after_create machine root base (done created) =
      let untracked = record (record_new created.id root creating) {
        shared_base = some base;
        resource_profile = created.resource_profile;
      } in
      after_record (record machine { containers = created.id ∷ machine.containers }) untracked
        (create_with_shared_base_and_profile codec machine.store created.id root (some base)
          created.resource_profile)

  unfoldable pub create_one :
      Machine → Text → Text → SharedBaseMount → Machine × Outcome SandboxRecord
  unfolding after_create
  create_one machine image root base =
      let request : CreateSandboxRequest = record {
        image = image;
        workspace_root = root;
        shared_base = some base;
      } in
      after_create (record machine { creations = machine.creations + 1 }) root base
        (ports.create_sandbox machine.creations request)

  -- `for record in records.iter().rev()`; the newest record comes first.
  unfoldable pub rollback_all : Machine → List SandboxRecord → Machine
  unfolding rollback
  rollback_all machine [] = machine
  rollback_all machine (r ∷ rs) = rollback_all (rollback machine r) rs

  -- The batch, with the creations left counted and the records made so far, the newest first.
  unfoldable pub create_batch :
      ℕ
      → Machine
      → Text
      → Text
      → SharedBaseMount
      → List SandboxRecord
      → Machine × Outcome (List SandboxRecord)
  unfolding create_one rollback_all
  create_batch zero machine image root base made = (machine, done made)
  create_batch (suc left) machine image root base made =
      let (machine', result) = create_one machine image root base in
      elim result [
        | done r ↦ create_batch left machine' image root base (r ∷ made)
        | refused e ↦ (rollback_all machine' made, refused e)
      ]

  -- `create_sandbox`: the records in the order of their creation.
  unfoldable pub create_sandbox : Machine → Text → Text → ℕ → Machine × Outcome (List SandboxRecord)
  unfolding create_batch
  create_sandbox machine image root count = elim (ports.shared_base_mount root) [
    | refused e ↦ (machine, refused e)
    | done base ↦
        let (machine', made) = create_batch count machine image root base [] in
        (machine', (elim made [ refused e ↦ refused e | done rs ↦ done (reverse rs) ]))
  ]

  -- The steps of `destroy_sandbox`, from the last to the first, each from what the one before it
  -- has returned.
  unfoldable pub after_remove :
      Machine → SandboxId → Reply SandboxRecord → Machine × Outcome SandboxRecord
  after_remove machine id (store, refused e) = (record machine { store = store }, refused e)
  after_remove machine id (store, done last) = (
    record machine {
      store = store;
      rings = (if ports.remove_ring id then dropped id machine.rings else machine.rings);
    },
    done last,
  )

  unfoldable pub after_stopped :
      Machine → SandboxId → Reply SandboxRecord → Machine × Outcome SandboxRecord
  unfolding after_remove
  after_stopped machine id (store, refused e) = (record machine { store = store }, refused e)
  after_stopped machine id (store, done _) = after_remove machine id (remove codec store id)

  unfoldable pub after_destroy :
      Machine → SandboxRecord → Outcome (Unit {0}) → Machine × Outcome SandboxRecord
  unfolding after_stopped
  after_destroy machine r (refused e) =
      (record machine { store = (set_state codec machine.store r.id failed).0 }, refused e)
  after_destroy machine r (done _) =
      after_stopped (record machine { containers = dropped r.id machine.containers }) r.id
        (set_state codec machine.store r.id stopped)

  unfoldable pub after_stop :
      Machine → SandboxRecord → Outcome (Unit {0}) → Machine × Outcome SandboxRecord
  unfolding after_destroy
  after_stop machine r (refused e) = (machine, refused e)
  after_stop machine r (done _) =
      after_destroy (record machine { calls = destroys r ∷ machine.calls }) r
        (ports.destroy_sandbox r)

  unfoldable pub after_stopping : Machine → Reply SandboxRecord → Machine × Outcome SandboxRecord
  unfolding after_stop is_some
  after_stopping machine (store, refused e) = (record machine { store = store }, refused e)
  after_stopping machine (store, done r) =
      after_stop
        (record machine {
          store = store;
          calls = (if is_some r.daemon then stops r ∷ machine.calls else machine.calls);
        })
        r (if is_some r.daemon then ports.stop_daemon r else done tt)

  unfoldable pub after_inspect :
      Machine → SandboxId → Outcome SandboxRecord → Machine × Outcome SandboxRecord
  unfolding after_stopping
  after_inspect machine id (refused e) = (machine, refused e)
  after_inspect machine id (done current) =
      if state_eq current.state creating || state_eq current.state stopping
      then (machine, refused (invalid_state_transition id current.state stopping))
      else after_stopping machine
          (transition_state codec machine.store current.id current.state stopping)

  unfoldable pub destroy_sandbox : Machine → SandboxId → Machine × Outcome SandboxRecord
  unfolding after_inspect
  destroy_sandbox machine id = after_inspect machine id (inspect machine.store id)
