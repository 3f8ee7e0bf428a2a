-- ===== src/Layers/Stack/Publish.antt =====
-- stack/ops/publish.rs: `publish_layer_unlocked`, and `allocate_layer_dirs` of storage/fs.rs.
use ephemeral_sandbox.Prelude.{
  ℕ, zero, suc, ◌+◌, Bool, true, false, ◌||◌, not, Option, none, some, List, [], ◌∷◌, Text, text_eq,
  has, dropped, find, erased, inserted, if◌then◌else◌,
}
use ephemeral_sandbox.Layers.Model.{LayerRef, Manifest, manifest_new, layer_path, format_layer_id}
use ephemeral_sandbox.Layers.Stack.{
  Stack, Result, ok, err, Faults, manifest_eq, manifest_conflict, layer_id_allocation,
  unsupported_schema, storage, io,
}

-- The tries left; the id, and the counter after it. A name of `staging` is the layer's id.
unfoldable pub allocate_from : ℕ → ℕ → ℕ → Stack → Option Text × Stack
unfolding format_layer_id layer_path has
allocate_from zero prefix next_version s = (none, s)
allocate_from (suc tries) prefix next_version s =
    let id = format_layer_id prefix next_version s.next_unique in
    let s' = record s { next_unique = s.next_unique + 1 } in
    let rest = allocate_from tries prefix next_version s' in
    if has id s.staging || has (layer_path id) s.dirs then rest else (some id, s')

unfoldable pub allocate_layer_dirs : ℕ → ℕ → Stack → Option Text × Stack
unfolding allocate_from
allocate_layer_dirs = allocate_from 100

unfoldable pub head_layer_digest : List LayerRef → List (Text × Text) → Option Text
unfolding find
head_layer_digest [] digests = none
head_layer_digest (head ∷ _) digests = find head.layer_id digests

-- The digest of the head is not read; with no head there is none to read.
unfoldable pub head_refused : Faults → List LayerRef → Bool
head_refused f [] = false
head_refused f (_ ∷ _) = f.head_digest

unfoldable pub same_digest : Option Text → Text → Bool
unfolding text_eq
same_digest none digest = false
same_digest (some d) digest = text_eq d digest

-- The manifest after, and whether a layer was created.
pub record PublishLayerOutcome : Type 0 where
  pub manifest : Manifest
  pub created : Bool

-- `remove_path` of the layer's folder and `remove_file` of its digest.
unfoldable pub discard : Text → Stack → Stack
unfolding layer_path dropped erased
discard id s = record s { dirs = dropped (layer_path id) s.dirs; digests = erased id s.digests }

-- From the second read of the manifest on: the manifest is written, or the layer is taken back, also
-- where the new manifest is in place and only the sync of its folder fails.
unfoldable pub install : Faults → Manifest → Text → ℕ → Stack → Result PublishLayerOutcome × Stack
unfolding discard layer_path manifest_new inserted manifest_eq
install f active id size s =
    if not (manifest_eq s.manifest active)
    then (err (manifest_conflict active.version s.manifest.version), discard id s)
    else elim (manifest_new (active.version + 1) (layer ∷ active.layers) active.schema_version) [
      | none ↦ (err unsupported_schema, s)
      | some manifest ↦
          if f.write_manifest
          then (err io, discard id s)
          else if f.sync_manifest
          then (err io, discard id (record s { manifest = manifest }))
          else (
            ok (record { manifest = manifest; created = true }),
            record s {
              manifest = manifest;
              sizes = if f.write_bytes then s.sizes else inserted id size s.sizes;
            },
          )
    ]
  where
    layer : LayerRef
    layer = record { layer_id = id; path = layer_path id }

-- From the folder in `staging` on.
unfoldable pub write_layer :
    Faults → Manifest → Text → Text → ℕ → Stack → Result PublishLayerOutcome × Stack
unfolding install dropped layer_path inserted
write_layer f active id digest size s =
    if f.create_staging
    then (err io, s)
    else if f.write_layer || f.rename
    then (err io, record s { staging = dropped id s.staging })
    else if f.fsync_parent
    then (err io, renamed)
    else if f.write_digest
    then (err io, record renamed { dirs = dropped (layer_path id) renamed.dirs })
    else if f.sync_digest
    then (
      err io,
      record renamed {
        dirs = dropped (layer_path id) renamed.dirs;
        digests = inserted id digest s.digests;
      },
    )
    else install f active id size (record renamed { digests = inserted id digest s.digests })
  where
    renamed : Stack
    renamed = record s { staging = dropped id s.staging; dirs = layer_path id ∷ s.dirs }

unfoldable pub publish_layer_unlocked :
    Faults → Manifest → Option Text → ℕ → Stack → Result PublishLayerOutcome × Stack
unfolding head_refused head_layer_digest same_digest allocate_layer_dirs write_layer
publish_layer_unlocked f active none size s = (err io, s)
publish_layer_unlocked f active (some digest) size s =
    if head_refused f active.layers
    then (err io, s)
    else if same_digest (head_layer_digest active.layers s.digests) digest
    then (ok (record { manifest = active; created = false }), s)
    else if f.failpoint
    then (err storage, s)
    else let (allocated, s') = allocate_layer_dirs b'L' (active.version + 1) s in
      elim allocated [
        | none ↦ (err layer_id_allocation, s')
        | some id ↦ write_layer f active id digest size s'
      ]

-- `publish_layer`: the active manifest is read under the same lock.
unfoldable pub publish_layer : Faults → Option Text → ℕ → Stack → Result PublishLayerOutcome × Stack
unfolding publish_layer_unlocked
publish_layer f digest size s = publish_layer_unlocked f s.manifest digest size s
