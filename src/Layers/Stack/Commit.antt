-- ===== src/Layers/Stack/Commit.antt =====
-- stack/squash.rs: `plan_squash` and `commit_squash`. (The contents that `build_blocks` flattens are
-- not part of this state; it allocates the ids that the commit is given.)
use ephemeral_sandbox.Prelude.{
  ◌+◌, ◌||◌, Option, none, some, List, [], ◌∷◌, ◌++◌, map, Text, text, dropped, erased,
  if◌then◌else◌, take,
}
use ephemeral_sandbox.Layers.Model.{LayerRef, Manifest, manifest_new, layer_path}
use ephemeral_sandbox.Layers.Leases.{LeaseRegistry, acquire, lease_newest_layers}
use ephemeral_sandbox.Layers.Squash.{
  BuiltBlock, partition_blocks, splice_blocks, record_substitutions,
}
use ephemeral_sandbox.Layers.Stack.{
  Stack, Result, ok, err, Faults, invalid_lease_owner, unsupported_schema, run_broken, io,
}
use ephemeral_sandbox.Layers.Stack.Collect.{release_lease_locked}

pub record SquashPlan : Type 0 where
  pub manifest : Manifest
  pub blocks : List (List LayerRef)
  pub plan_lease_id : Text

-- The plan lease is given back, with no collection, where there is no block.
unfoldable pub planned :
    Manifest → Text → LeaseRegistry → List (List LayerRef) → Stack → Option SquashPlan × Stack
unfolding erased
planned manifest lease_id leases [] s = (none, record s { leases = erased lease_id leases })
planned manifest lease_id leases (block ∷ blocks) s = (
  some (record { manifest = manifest; blocks = block ∷ blocks; plan_lease_id = lease_id }),
  record s { leases = leases },
)

unfoldable pub plan_squash : Text → Stack → Result (Option SquashPlan) × Stack
unfolding acquire lease_newest_layers partition_blocks planned
plan_squash lease_id s = elim (acquire s.leases s.manifest (text "squash-plan") lease_id) [
  | none ↦ (err invalid_lease_owner, s)
  | some (_, leases) ↦
      let boundaries = map (λ l. l.layer_id) (lease_newest_layers s.leases) in
      let (plan, s') =
        planned s.manifest lease_id leases (partition_blocks s.manifest.layers boundaries) s in
      (ok plan, s')
]

-- The renames from `staging`, for all blocks.
unfoldable pub promote : List BuiltBlock → Stack → Stack
unfolding layer_path dropped
promote [] s = s
promote (block ∷ blocks) s = promote blocks (record s {
  staging = dropped block.layer_id s.staging;
  dirs = layer_path block.layer_id ∷ s.dirs;
})

-- Promoted folders taken back.
unfoldable pub demote : List BuiltBlock → Stack → Stack
unfolding layer_path dropped
demote [] s = s
demote (block ∷ blocks) s =
    demote blocks (record s { dirs = dropped (layer_path block.layer_id) s.dirs })

pub record Committed : Type 0 where
  pub manifest : Manifest
  pub removed : List LayerRef

-- After the new manifest is in place: the substitutions, and the release of the plan lease.
unfoldable pub settle_commit :
    Faults → Text → List BuiltBlock → Manifest → Stack → Result Committed × Stack
unfolding record_substitutions release_lease_locked
settle_commit f plan_lease_id built manifest s =
    let s' = record s {
      manifest = manifest;
      substitutions = s.substitutions ++ record_substitutions built;
    } in
    let (released, s'') = release_lease_locked f plan_lease_id s' in
    elim released [
      | err e ↦ (err e, s'')
      | ok removed ↦ (
        ok (record { manifest = manifest; removed = elim removed [ none ↦ [] | some ls ↦ ls ] }),
        s'',
      )
    ]

-- The promotion of the first blocks, undone.
unfoldable pub undone : List BuiltBlock → Stack → Stack
unfolding promote demote
undone built s = demote built (promote built s)

-- The renames, the sync and the write of the manifest.
unfoldable pub install_squash :
    Faults → Text → List BuiltBlock → Manifest → Stack → Result Committed × Stack
unfolding promote demote undone settle_commit
install_squash f plan_lease_id built manifest s = elim f.rename_stops [
  | some n ↦ (err io, undone (take n built) s)
  | none ↦
      if f.sync_root || f.write_manifest
      then (err io, undone built s)
      else if f.sync_manifest
      then (err io, demote built (record (promote built s) { manifest = manifest }))
      else settle_commit f plan_lease_id built manifest (promote built s)
]

unfoldable pub commit_squash : Faults → Text → List BuiltBlock → Stack → Result Committed × Stack
unfolding splice_blocks manifest_new install_squash
commit_squash f plan_lease_id built s = elim (splice_blocks s.manifest.layers built) [
  | none ↦ (err run_broken, s)
  | some layers ↦ elim (manifest_new (s.manifest.version + 1) layers s.manifest.schema_version) [
    | none ↦ (err unsupported_schema, s)
    | some manifest ↦ install_squash f plan_lease_id built manifest s
  ]
]
