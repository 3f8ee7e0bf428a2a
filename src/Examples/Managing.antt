-- ===== src/Examples/Managing.antt =====
-- Runs of the sandbox manager, and its theorems at inputs where they apply.
use ephemeral_sandbox.Prelude.{
  ℕ, zero, ◌≡◌, ◌≢◌, refl, true, false, Option, none, some, List, [], ◌∷◌, ◌++◌, arith, All, Text,
  text, ◌+◌, has, text_eq, text_eq_iff, find, inserted, text_lt, if◌then◌else◌, ◌↔◌,
}
use ephemeral_sandbox.Manager.Model.{
  SandboxId, SandboxState, creating, ready, stopping, failed, SharedBaseMount,
  SandboxResourceProfile, SandboxDaemonEndpoint, SandboxHttpEndpoint, SandboxRecord, record_new,
  done, refused, invalid_sandbox_id, runtime_failed, invalid_state_transition, state_eq, id_new,
}
use ephemeral_sandbox.Manager.Model.Id.{IsIdChar, id_new_iff}
use ephemeral_sandbox.Manager.Disk.{
  RegistryPath, at_rename, at_write, Disk, write_snapshot, staged_snapshot_path,
}
use ephemeral_sandbox.Manager.Disk.Atomic.{write_snapshot_atomic}
use ephemeral_sandbox.Manager.Store.{
  Codec, SandboxStore, load, create_with_shared_base_and_profile, remove, persist, list, listing,
}
use ephemeral_sandbox.Manager.Store.Listing.{Keyed, listing_unique}
use ephemeral_sandbox.Manager.Store.{
  Records, ids, is_orphan, ready_ids, reconcile, advance_activity_revision,
}
use ephemeral_sandbox.Layers.Changes.Aggregate.{last_with}
use ephemeral_sandbox.Manager.Store.Reconciled.{
  IsAscending, meets, ready_ids-IsAscending, marked_content, reconcile-Ends,
}
use ephemeral_sandbox.Manager.Lifecycle.{
  Ports, Machine, is_some, create_one, rollback_all, destroy_sandbox,
}
use ephemeral_sandbox.Manager.Lifecycle.Effects.{Kept}
use ephemeral_sandbox.Manager.Lifecycle.Creating.{
  Finished, create_one-Finished, rollback_all-removes, granted, undoing,
}
use ephemeral_sandbox.Manager.Lifecycle.Destroying.{
  Destroyed, destroy_sandbox-Destroyed, destroy_sandbox-stuck,
}
use ephemeral_sandbox.Manager.Forward.{sandbox, OperationRequest, Client, forward_sandbox_request}
use ephemeral_sandbox.Manager.Forward.Counts.{Forwarded, forward_sandbox_request-Forwarded}
use ephemeral_sandbox.Manager.Store.Persisted.{Ends, ReadsBack}
use ephemeral_sandbox.Manager.Store.Spec.{
  Command, creates, removes, run, target, effect, Performs, run-Performs,
}
use ephemeral_sandbox.Manager.Store.Trail.{
  start, next, command, Passed, Steps-Passed, Steps, run-loads,
}

-- A codec for a registry of one record that has only an id.
plain_bytes :
    SandboxId
    → Text
    → SandboxState
    → ℕ
    → Option SandboxDaemonEndpoint
    → Option SandboxHttpEndpoint
    → Option SharedBaseMount
    → Option SandboxResourceProfile
    → Option (List ℕ)
plain_bytes id [] creating zero none none none none = some id
plain_bytes _ _ _ _ _ _ _ _ = none

to_bytes : List SandboxRecord → Option (List ℕ)
to_bytes (r ∷ []) =
    plain_bytes r.id r.workspace_root r.state r.activity_revision r.daemon r.daemon_http
      r.shared_base r.resource_profile
to_bytes _ = none

abbrev plain_codec : Codec
plain_codec = record {
  to_bytes = to_bytes;
  from_bytes = λ bytes. some (record_new bytes [] creating ∷ []);
}

plain-ReadsBack : ReadsBack plain_codec
unfolding to_bytes plain_bytes record_new
plain-ReadsBack [] bytes h = cc
plain-ReadsBack (r ∷ s ∷ rs) bytes h = cc
plain-ReadsBack (r ∷ []) bytes h =
    fields r.id r.workspace_root r.state r.activity_revision r.daemon r.daemon_http r.shared_base
      r.resource_profile h
  where
    fields :
        (id : SandboxId) (root : Text) (state : SandboxState) (n : ℕ)
        (d : Option SandboxDaemonEndpoint) (e : Option SandboxHttpEndpoint)
        (b : Option SharedBaseMount) (p : Option SandboxResourceProfile)
        → plain_bytes id root state n d e b p ≡ some bytes
        → some (record_new bytes [] creating ∷ [])
          ≡ some (
              record {
                id = id;
                workspace_root = root;
                state = state;
                activity_revision = n;
                daemon = d;
                daemon_http = e;
                shared_base = b;
                resource_profile = p;
              }
              ∷ [])
    fields id [] creating zero none none none none h = ground arith
    fields id _ _ _ _ _ _ _ h = ground arith

abbrev registry : RegistryPath
registry = record { parent = text "state"; file_name = text "registry.json" }

abbrev empty_store : SandboxStore
empty_store = record {
  records = [];
  registry_path = some registry;
  poisoned = false;
  disk = [];
  stops = none ∷ some at_rename ∷ none ∷ [];
}

abbrev new_one : Command
new_one = creates (text "a") [] none none

abbrev stored : SandboxStore
stored = (run plain_codec empty_store new_one).0

-- An id with a blank inside is refused, one with a dot is accepted.
id_new_test :
    (id_new (text "a.b") ≡ done (text "a.b"))
    × (id_new (text "a b") ≡ refused (invalid_sandbox_id (text "a b")))
unfolding id_new
id_new_test = (refl, refl)

id_new_iff_example :
    (id_new (text "a.b") ≡ done (text "a.b"))
    ↔ ((text "a.b" ≢ []) × All IsIdChar (text "a.b") × (text "a.b" ≡ text "a.b"))
id_new_iff_example = id_new_iff (text "a.b") (text "a.b")

abbrev old_disk : Disk
old_disk = (text "registry.json", 1 ∷ 2 ∷ []) ∷ []

write_snapshot_atomic_example :
    let result = write_snapshot (some (at_write 1)) registry (3 ∷ 4 ∷ []) old_disk in
    (find registry.file_name result.0
      ≡ (if result.1 then some (3 ∷ 4 ∷ []) else find registry.file_name old_disk))
    × ((name : Text)
        → name ≢ registry.file_name
        → name ≢ (staged_snapshot_path registry).file_name
        → find name result.0 ≡ find name old_disk)
write_snapshot_atomic_example =
    write_snapshot_atomic (some (at_write 1)) registry (3 ∷ 4 ∷ []) old_disk

run-Performs_example :
    Performs plain_codec empty_store
      (text "a")
      (effect new_one (find (text "a") []))
      (run plain_codec empty_store new_one)
unfolding target
run-Performs_example = run-Performs plain_codec empty_store tt refl new_one

stored_test :
    run plain_codec empty_store new_one ≡ (stored, done (record_new (text "a") [] creating))
unfolding run create_with_shared_base_and_profile to_bytes plain_bytes persist write_snapshot find
    inserted
stored_test = refl

run-loads_example :
    (loaded : SandboxStore) × (load plain_codec registry (some stored.disk) [] ≡ done loaded)
    × ((id : SandboxId) → find id loaded.records ≡ find id stored.records)
run-loads_example =
    run-loads plain_codec empty_store stored new_one (record_new (text "a") [] creating) registry []
      plain-ReadsBack tt refl stored_test

-- The second write is stopped before its rename: the sandbox is gone from the map and not from the
-- registry.
removed_test :
    let after = run plain_codec stored (removes (text "a")) in
    (after.0.records ≡ []) × (find registry.file_name after.0.disk ≡ some (text "a"))
unfolding run create_with_shared_base_and_profile remove to_bytes plain_bytes persist write_snapshot
    find inserted text_eq
removed_test = (refl, refl)

abbrev stored_then_removed :
    Steps plain_codec empty_store (run plain_codec stored (removes (text "a"))).0
stored_then_removed = next (next start (command new_one)) (command (removes (text "a")))

Steps-Passed_example :
    Keyed (run plain_codec stored (removes (text "a"))).0.records × Passed stored_then_removed
Steps-Passed_example =
    Steps-Passed plain_codec empty_store (run plain_codec stored (removes (text "a"))).0 tt
      stored_then_removed

-- Two sandboxes with daemons, one of them in the state failed.
abbrev endpoint : SandboxDaemonEndpoint
endpoint = record { host = text "h"; port = 80; auth_token = text "t" }

abbrev serving_record : SandboxRecord
serving_record = record (record_new (text "a") (text "/w") ready) { daemon = some endpoint }

abbrev broken_record : SandboxRecord
broken_record = record_new (text "b") (text "/w") failed

abbrev two_stored : SandboxStore
two_stored = record {
  records = (text "b", broken_record) ∷ (text "a", serving_record) ∷ [];
  registry_path = none;
  poisoned = false;
  disk = [];
  stops = [];
}

two_stored-Keyed : Keyed two_stored.records
unfolding find text_eq record_new
two_stored-Keyed = (refl, refl, (refl, refl, tt))

listing_test : list two_stored ≡ done (serving_record ∷ broken_record ∷ [])
unfolding list text_lt record_new
listing_test = refl

abbrev turned : List (SandboxId × SandboxRecord)
turned = (text "a", serving_record) ∷ (text "b", broken_record) ∷ []

turned-Keyed : Keyed turned
unfolding find text_eq record_new
turned-Keyed = (refl, refl, (refl, refl, tt))

turned_same : (id : SandboxId) → find id two_stored.records ≡ find id turned
unfolding find record_new
turned_same id = ground (arith, text_eq_iff (text "a") id, text_eq_iff (text "b") id)

listing_unique_example : listing two_stored.records ≡ listing turned
listing_unique_example =
    listing_unique two_stored.records turned two_stored-Keyed turned-Keyed turned_same

ready_ids_test : ready_ids two_stored ≡ done (text "a" ∷ [])
unfolding ready_ids record_new state_eq text_lt
ready_ids_test = refl

ready_ids-IsAscending_example :
    IsAscending (text "a" ∷ [])
    × ((id : SandboxId)
        → has id (text "a" ∷ []) ≡ meets (λ r. state_eq r.state ready) (find id two_stored.records))
ready_ids-IsAscending_example =
    ready_ids-IsAscending two_stored (text "a" ∷ []) two_stored-Keyed ready_ids_test

-- The sandbox `a` has no container any more, and `c` is found.
abbrev found_record : SandboxRecord
found_record = record_new (text "c") (text "/w") ready

reconcile-Ends_example :
    (m : Records) × (lost : List SandboxId) × ((id : SandboxId)
      → find id m
        ≡ last_with
            (λ r. r.id)
            id
            (found_record ∷ [])
            (marked_content (ids (found_record ∷ [])) (find id two_stored.records)))
    × Keyed m
    × IsAscending lost
    × ((id : SandboxId)
        → has id lost ≡ meets (is_orphan (ids (found_record ∷ []))) (find id two_stored.records))
    × Ends plain_codec
        (record two_stored { records = m })
        lost
        (reconcile plain_codec two_stored (found_record ∷ []))
reconcile-Ends_example =
    reconcile-Ends plain_codec two_stored (found_record ∷ []) two_stored-Keyed refl

reconcile_test : (reconcile plain_codec two_stored (found_record ∷ [])).1 ≡ done (text "a" ∷ [])
unfolding reconcile has text_eq record_new state_eq
reconcile_test = refl

-- A runtime that names its sandboxes by their count, and daemons that start and never stop.
abbrev stubborn : Ports
stubborn = record {
  create_sandbox = λ n request. done (record { id = (b'a' + n) ∷ []; resource_profile = none });
  destroy_sandbox = λ r. done tt;
  install_daemon = λ r. done tt;
  start_daemon = λ r. done (record { daemon = endpoint; daemon_http = none });
  stop_daemon = λ r. refused runtime_failed;
  check_daemon = λ r e. done tt;
  shared_base_mount = λ root. refused runtime_failed;
  remove_ring = λ id. true;
}

abbrev machine : Machine
machine = record {
  store = two_stored;
  containers = text "b" ∷ text "a" ∷ [];
  rings = [];
  creations = 2;
  calls = [];
}

abbrev base : SharedBaseMount
base = record { source = text "/s"; target = text "/t"; root_hash = text "h"; readonly = true }

create_one-Finished_example :
    Finished
      (text "c")
      two_stored
      (create_one plain_codec stubborn machine (text "i") (text "/w") base)
unfolding find text_eq record_new
create_one-Finished_example =
    create_one-Finished plain_codec stubborn machine (text "i") (text "/w") base
      (record { id = text "c"; resource_profile = none }) two_stored-Keyed refl refl refl

destroy_sandbox-Destroyed_example :
    let result = destroy_sandbox plain_codec stubborn machine (text "a") in
    Destroyed stubborn (text "a") serving_record machine result.0 result.1
    × Kept (text "a") two_stored result.0.store
unfolding find text_eq state_eq record_new
destroy_sandbox-Destroyed_example =
    destroy_sandbox-Destroyed plain_codec stubborn machine (text "a") serving_record
      two_stored-Keyed refl refl refl

destroy_sandbox-stuck_example :
    let after = (destroy_sandbox plain_codec stubborn machine (text "a")).0 in
    (after.containers ≡ machine.containers)
    × (destroy_sandbox plain_codec stubborn after (text "a")
        ≡ (after, refused (invalid_state_transition (text "a") stopping stopping)))
unfolding find text_eq state_eq record_new is_some
destroy_sandbox-stuck_example =
    destroy_sandbox-stuck plain_codec stubborn machine (text "a") serving_record runtime_failed
      two_stored-Keyed refl refl refl refl refl

abbrev quiet_client : Client
quiet_client e request = done (record { error = none })

abbrev write_request : OperationRequest
write_request = record { op = text "file_write"; scope = sandbox (text "a") }

forward_sandbox_request-Forwarded_example :
    Forwarded quiet_client two_stored write_request
      (forward_sandbox_request plain_codec quiet_client two_stored write_request)
forward_sandbox_request-Forwarded_example =
    forward_sandbox_request-Forwarded plain_codec quiet_client two_stored write_request
      two_stored-Keyed refl

forward_test :
    find
      (text "a")
      (forward_sandbox_request plain_codec quiet_client two_stored write_request).0.records
    ≡ some (record serving_record { activity_revision = 1 })
unfolding forward_sandbox_request find advance_activity_revision text_eq state_eq record_new
    inserted
forward_test = refl

rollback_all-removes_example :
    let after = rollback_all plain_codec stubborn machine (serving_record ∷ []) in
    ((id : SandboxId)
      → find id after.store.records
        ≡ (if has id (ids (serving_record ∷ [])) then none else find id two_stored.records))
    × ((id : SandboxId)
        → has id after.containers ≡ (
            if has id (ids (granted plain_codec stubborn (serving_record ∷ [])))
            then false
            else has id machine.containers))
    × (after.calls ≡ undoing plain_codec stubborn (serving_record ∷ []) ++ machine.calls)
    × (after.rings ≡ machine.rings)
    × (after.creations ≡ machine.creations)
rollback_all-removes_example =
    rollback_all-removes plain_codec stubborn machine (serving_record ∷ []) two_stored-Keyed refl
