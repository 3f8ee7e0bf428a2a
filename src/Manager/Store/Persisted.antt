-- ===== src/Manager/Store/Persisted.antt =====
-- crates/sandbox-manager/src/store.rs: what `persist` has written, `load` reads back.
use ephemeral_sandbox.Prelude.{
  ℕ, ◌≡◌, refl, ◌∙◌, subst, Bool, true, false, Option, none, some, List, [], find, if◌then◌else◌,
}
use ephemeral_sandbox.Manager.Model.{
  SandboxId, SandboxRecord, RegistryAction, write, registry_persist_failed, Outcome, done, refused,
}
use ephemeral_sandbox.Manager.Disk.{RegistryPath, Stop, Disk, write_snapshot}
use ephemeral_sandbox.Manager.Disk.Atomic.{write_snapshot_atomic}
use ephemeral_sandbox.Manager.Store.{
  Codec, Records, SandboxStore, Reply, listing, collected, load, write_bytes, persist_to, persist,
  saved, next_stop, later_stops,
}
use ephemeral_sandbox.Manager.Store.Listing.{Keyed, listing-IsSorted}
use ephemeral_sandbox.Manager.Store.Keyed.{find-collected_sorted, collected-Keyed}

-- The registry, if the store has one, holds the records of the map in the order of their ids.
abbrev pub Saved : Codec → SandboxStore → Type 0
Saved codec store =
    (path : RegistryPath)
    → store.registry_path ≡ some path
    → (bytes : List ℕ) × (codec.to_bytes (listing store.records) ≡ some bytes)
      × (find path.file_name store.disk ≡ some bytes)

-- What the registry held before, it holds still.
abbrev pub Unsaved : SandboxStore → SandboxStore → Type 0
Unsaved store after =
    (path : RegistryPath)
    → store.registry_path ≡ some path
    → find path.file_name after.disk ≡ find path.file_name store.disk

-- What a write of the registry leaves: it succeeds and the map is saved, or it fails for the registry
-- and the registry is the old one. In both cases the map is the new one.
pub data Ends {A : Type 0} (codec : Codec) (store : SandboxStore) (a : A) : Reply A → Type 0 where
  written :
      {after : SandboxStore}
      → Saved codec after
      → after.records ≡ store.records
      → after.registry_path ≡ store.registry_path
      → after.poisoned ≡ store.poisoned
      → Ends codec store a (after, done a)
  unwritten :
      {after : SandboxStore} {action : RegistryAction}
      → Unsaved store after
      → after.records ≡ store.records
      → after.registry_path ≡ store.registry_path
      → after.poisoned ≡ store.poisoned
      → Ends codec store a (after, refused (registry_persist_failed action))

module _ (codec : Codec) (store : SandboxStore) where
  written_bytes :
      (path : RegistryPath) (bytes : List ℕ) (result : Disk × Bool)
      → store.registry_path ≡ some path
      → codec.to_bytes (listing store.records) ≡ some bytes
      → find path.file_name result.0
        ≡ (if result.1 then some bytes else find path.file_name store.disk)
      → Ends codec store tt (
        record store { disk = result.0; stops = later_stops store.stops },
        (if result.1 then done tt else refused (registry_persist_failed write)),
      )
  written_bytes path bytes (disk, true) e f h =
      written (λ p at. (bytes, f, subst (λ q. find q.file_name disk ≡ some bytes) (same p at) h))
        refl refl refl
    where
      same : (p : RegistryPath) → store.registry_path ≡ some p → path ≡ p
      same p at = cc
  written_bytes path bytes (disk, false) e f h =
      unwritten
        (λ p at. subst (λ q. find q.file_name disk ≡ find q.file_name store.disk) (same p at) h)
        refl refl refl
    where
      same : (p : RegistryPath) → store.registry_path ≡ some p → path ≡ p
      same p at = cc

  write_bytes-Ends :
      (path : RegistryPath) (bytes : Option (List ℕ))
      → store.registry_path ≡ some path
      → codec.to_bytes (listing store.records) ≡ bytes
      → Ends codec store tt (write_bytes codec store path bytes)
  unfolding write_bytes
  write_bytes-Ends path none e f = unwritten (λ _ _. refl) refl refl refl
  write_bytes-Ends path (some bytes) e f =
      let stop = next_stop store.stops in
      written_bytes path bytes (write_snapshot stop path bytes store.disk) e f
        (write_snapshot_atomic stop path bytes store.disk).0

  persist_to-Ends :
      (at : Option RegistryPath)
      → store.registry_path ≡ at
      → Ends codec store tt (persist_to codec store at)
  unfolding persist_to
  persist_to-Ends none e = written (λ path h. absurd (cc)) refl refl refl
  persist_to-Ends (some path) e =
      write_bytes-Ends path (codec.to_bytes (listing store.records)) e refl

  persist-Ends : Ends codec store tt (persist codec store)
  unfolding persist
  persist-Ends = persist_to-Ends store.registry_path refl

replied :
    (codec : Codec) (store : SandboxStore) {A : Type 0} (a : A) {reply : Reply (Unit {0})}
    → Ends codec store tt reply
    → Ends codec store a
        (reply.0, (elim reply.1 as (λ _. Outcome A) [ done _ ↦ done a | refused e ↦ refused e ]))
replied codec store a (written s m r l) = written s m r l
replied codec store a (unwritten s m r l) = unwritten s m r l

-- A change of the map, and what is left of it.
pub saved-Ends :
    (codec : Codec) (store : SandboxStore) {A : Type 0} (m : Records) (a : A)
    → Ends codec (record store { records = m }) a (saved codec store m a)
unfolding saved
saved-Ends codec store m a =
    replied codec (record store { records = m }) a
      (persist-Ends codec (record store { records = m }))

-- What JSON gives back for what it has written.
abbrev pub ReadsBack : Codec → Type 0
ReadsBack codec =
    (rs : List SandboxRecord) (bytes : List ℕ)
    → codec.to_bytes rs ≡ some bytes
    → codec.from_bytes bytes ≡ some rs

-- A store that opens the registry of a saved store has the same record under each id.
pub load-Saved :
    (codec : Codec) (store : SandboxStore) (path : RegistryPath) (stops : List (Option Stop))
    → ReadsBack codec
    → Keyed store.records
    → Saved codec store
    → store.registry_path ≡ some path
    → (loaded : SandboxStore) × (load codec path (some store.disk) stops ≡ done loaded)
      × Keyed loaded.records
      × ((id : SandboxId) → find id loaded.records ≡ find id store.records)
unfolding load
load-Saved codec store path stops back keyed saved at =
    let (bytes, to, on_disk) = saved path at in
    let sorted = listing-IsSorted store.records keyed in
    let snapshot = listing store.records in
    (
      record {
        records = collected snapshot [];
        registry_path = some path;
        poisoned = false;
        disk = store.disk;
        stops = stops;
      },
      rw (on_disk, load, back snapshot bytes to),
      collected-Keyed snapshot [] tt,
      λ id. find-collected_sorted id snapshot sorted.0 ∙ sorted.1 id,
    )
