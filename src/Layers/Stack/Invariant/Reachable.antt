-- ===== src/Layers/Stack/Invariant/Reachable.antt =====
-- The layer stack as a state machine: every state that the operations reach from a safe one is safe.
use ephemeral_sandbox.Prelude.{ℕ, ◌≡◌, false, Option, some, List, [], Text, find}
use ephemeral_sandbox.Layers.Leases.{LeaseRecord}
use ephemeral_sandbox.Layers.Changes.{LayerChange}
use ephemeral_sandbox.Layers.Squash.{BuiltBlock}
use ephemeral_sandbox.Layers.Planner.{World, PublishValidatedChangesRequest}
use ephemeral_sandbox.Layers.Planner.Validated.{
  publish_validated_changes, publish_validated_changes-IsSafe,
}
use ephemeral_sandbox.Layers.Stack.{Stack, Faults}
use ephemeral_sandbox.Layers.Stack.Publish.{publish_layer}
use ephemeral_sandbox.Layers.Stack.Collect.{sweep_storage_locked}
use ephemeral_sandbox.Layers.Stack.Snapshot.{
  acquire_snapshot, release_lease, acquire_rewritten_lease,
}
use ephemeral_sandbox.Layers.Stack.Commit.{SquashPlan, plan_squash, commit_squash}
use ephemeral_sandbox.Layers.Stack.Build.{build_blocks, squash}
use ephemeral_sandbox.Layers.Stack.Invariant.Building.{build_blocks-IsSafe, squash-IsSafe}
use ephemeral_sandbox.Layers.Stack.Invariant.{IsSafe}
use ephemeral_sandbox.Layers.Stack.Invariant.Collecting.{release_lease-IsSafe}
use ephemeral_sandbox.Layers.Stack.Invariant.Publishing.{publish_layer-IsSafe}
use ephemeral_sandbox.Layers.Stack.Invariant.Leasing.{
  acquire_snapshot-IsSafe, acquire_rewritten_lease-IsSafe,
}
use ephemeral_sandbox.Layers.Stack.Invariant.Squashing.{
  Fresh, plan_squash-IsSafe, commit_squash-IsSafe,
}
use ephemeral_sandbox.Layers.Stack.Invariant.Sweeping.{sweep_storage_locked-IsSafe}

-- One operation under the writer lock, whatever it returns. A rewritten lease is of a lease that is
-- live, the folders of built blocks are new, and the sweep runs before there is a lease.
pub data Step (s : Stack) : Stack → Type 0 where
  publish :
      (f : Faults) (digest : Option Text) (size : ℕ) → Step s (publish_layer f digest size s).1
  publish_validated :
      (w : World) (f : Faults) (layer_digest : List LayerChange → Option Text)
      (request : PublishValidatedChangesRequest)
      → Step s (publish_validated_changes w f layer_digest request s).1
  snapshot : (owner lease_id : Text) → Step s (acquire_snapshot owner lease_id s).1
  release : (f : Faults) (lease_id : Text) → Step s (release_lease f lease_id s).1
  rewrite :
      (lease : LeaseRecord) (held owner lease_id : Text)
      → find held s.leases ≡ some lease
      → Step s (acquire_rewritten_lease lease owner lease_id s).1
  plan : (lease_id : Text) → Step s (plan_squash lease_id s).1
  build : (f : Faults) (blocks : SquashPlan) → Step s (build_blocks f blocks s).1
  commit :
      (f : Faults) (plan_lease_id : Text) (built : List BuiltBlock)
      → Fresh s.dirs built
      → Step s (commit_squash f plan_lease_id built s).1
  whole_squash : (f : Faults) (lease_id : Text) → Step s (squash f lease_id s).1
  sweep : (f : Faults) (ids : List Text) → s.leases ≡ [] → Step s (sweep_storage_locked f ids s).1

pub data Steps : Stack → Stack → Type 0 where
  stay : (s : Stack) → Steps s s
  then_step : (s t u : Stack) → Steps s t → Step t u → Steps s u

-- The sync of the storage root after the rename of a new manifest does not fail.
abbrev pub Synced : {s t : Stack} → Step s t → Type 0
Synced (publish f digest size) = f.sync_manifest ≡ false
Synced (publish_validated w f layer_digest request) = f.sync_manifest ≡ false
Synced (snapshot owner lease_id) = Unit
Synced (release f lease_id) = Unit
Synced (rewrite lease held owner lease_id e) = Unit
Synced (plan lease_id) = Unit
Synced (build f blocks) = Unit
Synced (commit f plan_lease_id built new) = f.sync_manifest ≡ false
Synced (whole_squash f lease_id) = f.sync_manifest ≡ false
Synced (sweep f ids e) = Unit

abbrev pub AllSynced : {s t : Stack} → Steps s t → Type 0
AllSynced (stay s) = Unit
AllSynced (then_step s t u steps step) = AllSynced steps × Synced step

Step-IsSafe : (s t : Stack) (step : Step s t) → Synced step → IsSafe s → IsSafe t
Step-IsSafe s t (publish f digest size) sync safe = publish_layer-IsSafe f digest size s sync safe
Step-IsSafe s t (publish_validated w f layer_digest request) sync safe =
    publish_validated_changes-IsSafe w f layer_digest request s sync safe
Step-IsSafe s t (snapshot owner lease_id) sync safe = acquire_snapshot-IsSafe owner lease_id s safe
Step-IsSafe s t (release f lease_id) sync safe = release_lease-IsSafe f lease_id s safe
Step-IsSafe s t (rewrite lease held owner lease_id e) sync safe =
    acquire_rewritten_lease-IsSafe lease held owner lease_id s e safe
Step-IsSafe s t (plan lease_id) sync safe = plan_squash-IsSafe lease_id s safe
Step-IsSafe s t (build f blocks) sync safe = build_blocks-IsSafe f blocks s safe
Step-IsSafe s t (whole_squash f lease_id) sync safe = squash-IsSafe f lease_id s sync safe
Step-IsSafe s t (commit f plan_lease_id built new) sync safe =
    commit_squash-IsSafe f plan_lease_id built s new sync safe
Step-IsSafe s t (sweep f ids e) sync safe = sweep_storage_locked-IsSafe f ids s e safe

-- Every sequence of operations, whatever the steps of `Faults` that the file system refuses in it, save
-- for the sync of the storage root after the rename of a new manifest, that starts where every layer
-- that the active manifest or a live lease names has the path of its id and its folder there, and the
-- layer of every recorded substitution has the path of its id, ends in such a state. (A rewritten lease
-- is of a live lease, the folders of the blocks of a commit are new, and a sweep runs with no lease.)
pub Steps-IsSafe : (s t : Stack) (steps : Steps s t) → AllSynced steps → IsSafe s → IsSafe t
Steps-IsSafe s t (stay _) sync safe = safe
Steps-IsSafe s t (then_step _ u _ steps step) sync safe =
    Step-IsSafe u t step sync.1 (Steps-IsSafe s u steps sync.0 safe)
