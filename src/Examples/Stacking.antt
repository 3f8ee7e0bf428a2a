-- ===== src/Examples/Stacking.antt =====
-- The layer stack, from an empty storage root on.
use ephemeral_sandbox.Prelude.{
  ℕ, ap, arith, ◌≡◌, refl, true, false, some, [], ◌∷◌, text, find, has, erased,
}
use ephemeral_sandbox.Layers.Model.{LayerRef, Manifest, format_layer_id, contains, layer_eq}
use ephemeral_sandbox.Layers.Leases.{LeaseRecord, leased_layers}
use ephemeral_sandbox.Layers.Squash.{BuiltBlock}
use ephemeral_sandbox.Layers.Stack.{Stack, Faults, no_faults, err, io}
use ephemeral_sandbox.Layers.Stack.Publish.{publish_layer, publish_layer_unlocked}
use ephemeral_sandbox.Layers.Stack.Collect.{release_lease_locked}
use ephemeral_sandbox.Layers.Stack.Snapshot.{acquire_snapshot, release_lease}
use ephemeral_sandbox.Layers.Stack.Commit.{SquashPlan, plan_squash, commit_squash}
use ephemeral_sandbox.Layers.Stack.Invariant.{IsSafe}
use ephemeral_sandbox.Layers.Stack.Invariant.Publishing.{
  Published, publish_layer_unlocked-Published, publish_layer-dangles,
}
use ephemeral_sandbox.Layers.Stack.Invariant.Collected.{release_lease_locked-collects}
use ephemeral_sandbox.Layers.Stack.Invariant.Atomic.{Ends, commit_squash-Ends}
use ephemeral_sandbox.Layers.Stack.Build.{build_blocks}
use ephemeral_sandbox.Layers.Stack.Invariant.Building.{Builds, build_blocks-Builds}
use ephemeral_sandbox.Layers.Stack.Invariant.Reachable.{
  Steps, AllSynced, stay, then_step, publish, snapshot, release, plan, Steps-IsSafe,
}

format_test : format_layer_id b'L' 12 255 ≡ text "L000012-000000ff"
unfolding format_layer_id
format_test = refl

abbrev empty_stack : Stack
empty_stack = record {
  manifest = record { version = 0; layers = []; schema_version = 1 };
  dirs = [];
  staging = [];
  digests = [];
  sizes = [];
  leases = [];
  substitutions = [];
  next_unique = 0;
}

publish_test :
    (publish_layer no_faults (some (text "d")) 5 empty_stack).1.dirs
    ≡ text "layers/L000001-00000000" ∷ []
unfolding publish_layer
publish_test = refl

-- Two layers, a snapshot of them, a third layer, and the plan of a squash.
abbrev two_layers : Stack
two_layers =
    (publish_layer no_faults (some (text "e")) 7
      (publish_layer no_faults (some (text "d")) 5 empty_stack).1).1

abbrev with_lease : Stack
with_lease = (acquire_snapshot (text "owner") (text "lease-1") two_layers).1

abbrev with_plan : Stack
with_plan =
    (plan_squash (text "plan-1") (publish_layer no_faults (some (text "f")) 9 with_lease).1).1

abbrev released : Stack
released = (release_lease no_faults (text "lease-1") with_plan).1

empty-IsSafe : IsSafe empty_stack
unfolding leased_layers
empty-IsSafe = record { active = tt; leased = tt; substituted = tt }

released-Steps : Steps empty_stack released
released-Steps =
    then_step _ with_plan _
      (then_step _ _ _
        (then_step _ with_lease _
          (then_step _ two_layers _
            (then_step _ _ _
              (then_step _ empty_stack _ (stay empty_stack) (publish no_faults (some (text "d")) 5))
              (publish no_faults (some (text "e")) 7))
            (snapshot (text "owner") (text "lease-1")))
          (publish no_faults (some (text "f")) 9))
        (plan (text "plan-1")))
      (release no_faults (text "lease-1"))

released-AllSynced : AllSynced released-Steps
unfolding released-Steps
released-AllSynced = ((((((tt, refl), refl), tt), refl), tt), tt)

Steps-IsSafe_example : IsSafe released
Steps-IsSafe_example =
    Steps-IsSafe empty_stack released released-Steps released-AllSynced empty-IsSafe

publish_layer_unlocked-Published_example :
    Published false two_layers two_layers.manifest
      (publish_layer_unlocked no_faults two_layers.manifest (some (text "f")) 9 two_layers)
publish_layer_unlocked-Published_example =
    publish_layer_unlocked-Published no_faults two_layers.manifest 9 two_layers (some (text "f"))

abbrev unsynced_faults : Faults
unsynced_faults = record no_faults { sync_manifest = true }

changed :
    (publish_layer unsynced_faults (some (text "f")) 9 two_layers).1.manifest ≡ two_layers.manifest
    → ⊥
unfolding publish_layer
changed e = three-two (ap (λ (m : Manifest). m.version) e)
  where
    three-two : ◌≡◌ {A = ℕ} 3 2 → ⊥
    three-two p = omega arith

dangling_test :
    ((publish_layer unsynced_faults (some (text "f")) 9 two_layers).0 ≡ err io)
    × (IsSafe (publish_layer unsynced_faults (some (text "f")) 9 two_layers).1 → ⊥)
dangling_test = publish_layer-dangles unsynced_faults (some (text "f")) 9 two_layers refl changed

-- One active layer, and a lease on another one.
abbrev old_layer : LayerRef
old_layer = record { layer_id = text "L1"; path = text "layers/L1" }

abbrev new_layer : LayerRef
new_layer = record { layer_id = text "L2"; path = text "layers/L2" }

abbrev old_lease : LeaseRecord
old_lease = record {
  lease_id = text "lease-1";
  manifest = record { version = 1; layers = old_layer ∷ []; schema_version = 1 };
}

abbrev leased_stack : Stack
leased_stack = record empty_stack {
  manifest = record { version = 2; layers = new_layer ∷ []; schema_version = 1 };
  dirs = text "layers/L1" ∷ text "layers/L2" ∷ [];
  leases = (text "lease-1", old_lease) ∷ [];
}

release_lease_locked-collects_example :
    has (text "layers/L1") (release_lease_locked no_faults (text "lease-1") leased_stack).1.dirs
    ≡ false
unfolding find release_lease_locked contains leased_layers erased layer_eq
release_lease_locked-collects_example =
    release_lease_locked-collects no_faults (text "lease-1") leased_stack old_lease
      (some (old_layer ∷ [])) old_layer refl refl refl refl refl

-- A squash of the two layers.
abbrev two_block : BuiltBlock
two_block = record { layer_id = text "S1"; replaced = two_layers.manifest.layers }

commit_squash-Ends_example :
    Ends false two_layers
      (text "plan-1")
      (two_block ∷ [])
      (commit_squash no_faults (text "plan-1") (two_block ∷ []) two_layers)
commit_squash-Ends_example =
    commit_squash-Ends no_faults (text "plan-1") (two_block ∷ []) two_layers

abbrev two_plan : SquashPlan
two_plan = record {
  manifest = two_layers.manifest;
  blocks = two_layers.manifest.layers ∷ [];
  plan_lease_id = text "plan-1";
}

build_blocks-Builds_example :
    Builds two_layers (two_layers.manifest.layers ∷ []) (build_blocks no_faults two_plan two_layers)
build_blocks-Builds_example = build_blocks-Builds no_faults two_plan two_layers
