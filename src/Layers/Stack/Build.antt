-- ===== src/Layers/Stack/Build.antt =====
-- stack/squash.rs: `build_blocks`, as far as the folders go, and the whole of `squash` when nothing
-- comes between its three phases.
use ephemeral_sandbox.Prelude.{
  ◌+◌, Option, none, some, List, [], ◌∷◌, ◌++◌, Text, dropped, if◌then◌else◌,
}
use ephemeral_sandbox.Layers.Model.{LayerRef, Manifest}
use ephemeral_sandbox.Layers.Squash.{BuiltBlock, find_run}
use ephemeral_sandbox.Layers.Stack.{
  Stack, Result, ok, err, Faults, layer_id_allocation, run_broken, io,
}
use ephemeral_sandbox.Layers.Stack.Publish.{allocate_layer_dirs}
use ephemeral_sandbox.Layers.Stack.Snapshot.{release_lease}
use ephemeral_sandbox.Layers.Stack.Commit.{SquashPlan, plan_squash, Committed, commit_squash}

-- `remove_path` of the staging folders of the built blocks.
unfoldable pub unstaged : List BuiltBlock → Stack → Stack
unfolding dropped
unstaged [] s = s
unstaged (block ∷ built) s =
    unstaged built (record s { staging = dropped block.layer_id s.staging })

-- The loop over the blocks, from those that are built.
unfoldable pub build_from :
    Faults
    → Manifest
    → List (List LayerRef)
    → List BuiltBlock
    → Stack
    → Result (List BuiltBlock) × Stack
unfolding allocate_layer_dirs find_run unstaged
build_from f manifest [] built s = (ok built, s)
build_from f manifest (block ∷ blocks) built s =
    let (allocated, s') = allocate_layer_dirs b'S' (manifest.version + 1) s in
    elim allocated [
      | none ↦ (err layer_id_allocation, unstaged built s')
      | some id ↦
          let built' = built ++ record { layer_id = id; replaced = block } ∷ [] in
          let s'' = record s' { staging = id ∷ s'.staging } in
          let rest = build_from f manifest blocks built' s'' in
          if f.create_staging
          then (err io, unstaged built s')
          else elim (find_run manifest.layers block) [
            | none ↦ (err run_broken, unstaged built s'')
            | some _ ↦ if f.flatten_fails id then (err io, unstaged built' s'') else rest
          ]
    ]

unfoldable pub build_blocks : Faults → SquashPlan → Stack → Result (List BuiltBlock) × Stack
unfolding build_from
build_blocks f plan s = build_from f plan.manifest plan.blocks [] s

-- After a commit that failed: the staging folders and the plan lease go.
unfoldable pub after_commit :
    Faults → Text → List BuiltBlock → Result Committed × Stack → Result Committed × Stack
unfolding unstaged release_lease
after_commit f plan_lease_id built (ok committed, s) = (ok committed, s)
after_commit f plan_lease_id built (err e, s) =
    (err e, (release_lease f plan_lease_id (unstaged built s)).1)

unfoldable pub after_build :
    Faults → SquashPlan → Result (List BuiltBlock) × Stack → Result Committed × Stack
unfolding release_lease commit_squash after_commit
after_build f plan (err e, s) = (err e, (release_lease f plan.plan_lease_id s).1)
after_build f plan (ok built, s) =
    after_commit f plan.plan_lease_id built (commit_squash f plan.plan_lease_id built s)

unfoldable pub after_plan : Faults → Result (Option SquashPlan) × Stack → Result Committed × Stack
unfolding build_blocks after_build
after_plan f (err e, s) = (err e, s)
after_plan f (ok none, s) = (ok (record { manifest = s.manifest; removed = [] }), s)
after_plan f (ok (some plan), s) = after_build f plan (build_blocks f plan s)

-- `squash`; `lease_id` is the new id of the plan lease.
unfoldable pub squash : Faults → Text → Stack → Result Committed × Stack
unfolding plan_squash after_plan
squash f lease_id s = after_plan f (plan_squash lease_id s)
