-- ===== src/Manager/Store.antt =====
-- crates/sandbox-manager/src/store.rs: `SandboxStore`, its operations and its registry on disk. The
-- map is a list of entries in the order that the map happens to have. An operation returns the store
-- that it leaves in every case, since it changes the map before the registry is written.
pub mod Listing
pub mod Keyed
pub mod Persisted
pub mod Spec
pub mod Reconciled
pub mod Trail
use ephemeral_sandbox.Prelude.{
  ℕ, ◌+◌, ◌^◌, Bool, true, false, ◌&&◌, not, Option, none, some, List, [], ◌∷◌, map, ltb,
  if◌then◌else◌, Text, text_lt, has, find, erased, inserted,
}
use ephemeral_sandbox.Manager.Model.{
  SandboxId, SandboxState, creating, ready, failed, state_eq, SharedBaseMount,
  SandboxResourceProfile, SandboxDaemonEndpoint, SandboxHttpEndpoint, SandboxRecord, record_new,
  RegistryAction, parse, read, serialize, write, ManagerError, duplicate_sandbox, missing_sandbox,
  invalid_state_transition, runtime_failed, store_poisoned, registry_persist_failed, Outcome, done,
  refused,
}
use ephemeral_sandbox.Manager.Disk.{RegistryPath, Stop, Disk, write_snapshot}

-- JSON, by the `serde_json` crate: the snapshot that is written and the records that are read.
pub record Codec : Type 0 where
  pub to_bytes : List SandboxRecord → Option (List ℕ)
  pub from_bytes : List ℕ → Option (List SandboxRecord)

abbrev pub Records : Type 0
Records = List (SandboxId × SandboxRecord)

-- The store with the disk, and where the writes to come are stopped, the next one first; with none
-- left a write succeeds. `poisoned` is the mutex that a panic has poisoned.
pub record SandboxStore : Type 0 where
  pub records : Records
  pub registry_path : Option RegistryPath
  pub poisoned : Bool
  pub disk : Disk
  pub stops : List (Option Stop)

-- `sort_by(|left, right| left.id.cmp(&right.id))`.
unfoldable pub placed : SandboxRecord → List SandboxRecord → List SandboxRecord
placed r [] = r ∷ []
placed r (s ∷ rest) =
    let later = s ∷ placed r rest in if text_lt s.id r.id then later else r ∷ s ∷ rest

unfoldable pub sorted : List SandboxRecord → List SandboxRecord
unfolding placed
sorted [] = []
sorted (r ∷ rest) = placed r (sorted rest)

unfoldable pub values : Records → List SandboxRecord
values [] = []
values ((_, r) ∷ rest) = r ∷ values rest

-- What `list` returns and `persist` writes.
unfoldable pub listing : Records → List SandboxRecord
unfolding sorted values
listing records = sorted (values records)

-- `collect()` into the map.
unfoldable pub collected : List SandboxRecord → Records → Records
collected [] records = records
collected (r ∷ rest) records = collected rest (inserted r.id r records)

abbrev pub Reply : Type 0 → Type 0
Reply A = SandboxStore × Outcome A

next_stop : List (Option Stop) → Option Stop
next_stop [] = none
next_stop (stop ∷ _) = stop

later_stops : List (Option Stop) → List (Option Stop)
later_stops [] = []
later_stops (_ ∷ rest) = rest

-- `ready_ids` before its sort.
ready_records : List SandboxRecord → List SandboxRecord
ready_records [] = []
ready_records (r ∷ rest) =
    if state_eq r.state ready then r ∷ ready_records rest else ready_records rest

-- The records that `reconcile` marks: not recovered and not failed before.
unfoldable pub is_orphan : List SandboxId → SandboxRecord → Bool
is_orphan recovered r = not (has r.id recovered) && not (state_eq r.state failed)

unfoldable pub marked : List SandboxId → Records → Records
unfolding is_orphan
marked recovered [] = []
marked recovered ((id, r) ∷ rest) =
    (id, (if is_orphan recovered r then record r { state = failed } else r)) ∷ marked recovered rest

unfoldable pub orphans : List SandboxId → Records → List SandboxRecord
unfolding is_orphan
orphans recovered [] = []
orphans recovered ((_, r) ∷ rest) =
    let others = orphans recovered rest in if is_orphan recovered r then r ∷ others else others

unfoldable pub ids : List SandboxRecord → List SandboxId
ids = map (λ r. r.id)

abbrev pub u64_limit : ℕ
u64_limit = 2 ^ 64

-- `self.records()?`.
unfoldable pub locked : {A : Type 0} → SandboxStore → Reply A → Reply A
locked store reply = if store.poisoned then (store, refused store_poisoned) else reply

module _ (codec : Codec) where
  -- `load`; `none` is a registry that cannot be read for another reason than that it is not there.
  unfoldable pub load : RegistryPath → Option Disk → List (Option Stop) → Outcome SandboxStore
  unfolding collected
  load path none stops = refused (registry_persist_failed read)
  load path (some disk) stops = elim (find path.file_name disk) [
    | none ↦ done (opened [])
    | some bytes ↦ elim (codec.from_bytes bytes) [
      | none ↦ refused (registry_persist_failed parse)
      | some snapshot ↦ done (opened (collected snapshot []))
    ]
  ]
    where
      opened : Records → SandboxStore
      opened records = record {
        records = records;
        registry_path = some path;
        poisoned = false;
        disk = disk;
        stops = stops;
      }

  unfoldable pub write_bytes : SandboxStore → RegistryPath → Option (List ℕ) → Reply (Unit {0})
  unfolding next_stop later_stops
  write_bytes store path none = (store, refused (registry_persist_failed serialize))
  write_bytes store path (some bytes) =
      let (disk, ok) = write_snapshot (next_stop store.stops) path bytes store.disk in
      (
        record store { disk = disk; stops = later_stops store.stops },
        (if ok then done tt else refused (registry_persist_failed write)),
      )

  unfoldable pub persist_to : SandboxStore → Option RegistryPath → Reply (Unit {0})
  unfolding listing write_bytes
  persist_to store none = (store, done tt)
  persist_to store (some path) = write_bytes store path (codec.to_bytes (listing store.records))

  unfoldable pub persist : SandboxStore → Reply (Unit {0})
  unfolding persist_to
  persist store = persist_to store store.registry_path

  -- `self.persist(&records)?; Ok(…)` after a change of the map.
  unfoldable pub saved : {A : Type 0} → SandboxStore → Records → A → Reply A
  unfolding persist
  saved store records a =
      let (store', reply) = persist (record store { records = records }) in
      (store', (elim reply [ done _ ↦ done a | refused e ↦ refused e ]))

  unfoldable pub reconcile : SandboxStore → List SandboxRecord → Reply (List SandboxId)
  unfolding locked saved collected marked orphans sorted ids
  reconcile store recovered =
      let known = ids recovered in
      locked store (
        saved store (collected recovered (marked known store.records))
          (ids (sorted (orphans known store.records))))

  unfoldable pub insert : SandboxStore → SandboxRecord → Reply SandboxRecord
  unfolding locked saved
  insert store r = locked store (elim (find r.id store.records) [
    | some _ ↦ (store, refused (duplicate_sandbox r.id))
    | none ↦ saved store (inserted r.id r store.records) r
  ])

  unfoldable pub create_with_shared_base_and_profile :
      SandboxStore
      → SandboxId
      → Text
      → Option SharedBaseMount
      → Option SandboxResourceProfile
      → Reply SandboxRecord
  unfolding locked saved record_new
  create_with_shared_base_and_profile store id workspace_root shared_base resource_profile =
      locked store (elim (find id store.records) [
        | some _ ↦ (store, refused (duplicate_sandbox id))
        | none ↦
            let r = record (record_new id workspace_root creating) {
              shared_base = shared_base;
              resource_profile = resource_profile;
            } in
            saved store (inserted id r store.records) r
      ])

  unfoldable pub update : SandboxStore → SandboxRecord → Reply SandboxRecord
  unfolding locked saved
  update store r = locked store (elim (find r.id store.records) [
    | none ↦ (store, refused (missing_sandbox r.id))
    | some _ ↦ saved store (inserted r.id r store.records) r
  ])

  unfoldable pub remove : SandboxStore → SandboxId → Reply SandboxRecord
  unfolding locked saved
  remove store id = locked store (elim (find id store.records) [
    | none ↦ (store, refused (missing_sandbox id))
    | some r ↦ saved store (erased id store.records) r
  ])

  -- `get_mut(id).ok_or(…)?`, the change of the record that is found, or its error, and `persist`.
  unfoldable pub changed :
      SandboxStore → SandboxId → (SandboxRecord → Outcome SandboxRecord) → Reply SandboxRecord
  unfolding locked saved
  changed store id change = locked store (elim (find id store.records) [
    | none ↦ (store, refused (missing_sandbox id))
    | some r ↦ elim (change r) [
      | refused e ↦ (store, refused e)
      | done r' ↦ saved store (inserted id r' store.records) r'
    ]
  ])

-- `transition_state`, once the record is found.
unfoldable pub moved :
    SandboxId → SandboxState → SandboxState → SandboxRecord → Outcome SandboxRecord
moved id from to r =
    if state_eq r.state from
    then done (record r { state = to })
    else refused (invalid_state_transition id r.state to)

-- `checked_add(1)`.
unfoldable pub counted_up : SandboxRecord → Outcome SandboxRecord
counted_up r =
    if ltb (r.activity_revision + 1) u64_limit
    then done (record r { activity_revision = r.activity_revision + 1 })
    else refused runtime_failed

module _ (codec : Codec) (store : SandboxStore) (id : SandboxId) where
  unfoldable pub transition_state : SandboxState → SandboxState → Reply SandboxRecord
  unfolding changed moved
  transition_state from to = changed codec store id (moved id from to)

  unfoldable pub set_state : SandboxState → Reply SandboxRecord
  unfolding changed
  set_state state = changed codec store id (λ r. done (record r { state = state }))

  unfoldable pub update_endpoints :
      Option SandboxDaemonEndpoint → Option SandboxHttpEndpoint → Reply SandboxRecord
  unfolding changed
  update_endpoints daemon daemon_http =
      changed codec store id (λ r. done (record r { daemon = daemon; daemon_http = daemon_http }))

  unfoldable pub advance_activity_revision : Reply SandboxRecord
  unfolding changed counted_up
  advance_activity_revision = changed codec store id counted_up

-- The operations that only read.
unfoldable pub seen : {A : Type 0} → SandboxStore → Outcome A → Outcome A
seen store reply = if store.poisoned then refused store_poisoned else reply

unfoldable pub list : SandboxStore → Outcome (List SandboxRecord)
unfolding seen listing
list store = seen store (done (listing store.records))

unfoldable pub ready_ids : SandboxStore → Outcome (List SandboxId)
unfolding seen ids sorted ready_records values
ready_ids store = seen store (done (ids (sorted (ready_records (values store.records)))))

unfoldable pub inspect : SandboxStore → SandboxId → Outcome SandboxRecord
unfolding seen
inspect store id =
    seen store
      (elim (find id store.records) [ none ↦ refused (missing_sandbox id) | some r ↦ done r ])

unfoldable pub is_ready : SandboxStore → SandboxId → Outcome Bool
unfolding seen
is_ready store id = seen store (elim (find id store.records) [
  | none ↦ refused (missing_sandbox id)
  | some r ↦ done (state_eq r.state ready)
])
