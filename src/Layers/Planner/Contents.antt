-- ===== src/Layers/Planner/Contents.antt =====
-- stack/publish/resolve.rs: the files that are read for a merge, the merge of a path, and the tests on
-- a change.
use ephemeral_sandbox.Prelude.{ℕ, Bool, true, false, Option, none, some, List, []}
use ephemeral_sandbox.Merge.Origins.{LineRange, Origin}
use ephemeral_sandbox.Merge.Loop.{three_way_merge, MergeOutcome, clean, conflict, ineligible}
use ephemeral_sandbox.Layers.Model.{Manifest}
use ephemeral_sandbox.Layers.Changes.{
  LayerChange, LayerPath, write, write_file, delete, symlink, directory, opaque_dir,
}
use ephemeral_sandbox.Layers.Planner.{
  World, Checked, pass, fail, and_then, rejected, file_too_large, io, absent, file, link, folder,
}

pub record MergedPath : Type 0 where
  pub bytes : List ℕ
  pub origin : List (LineRange × Origin)

pub data FileBytes : Type 0 where
  bytes_read : List ℕ → FileBytes
  no_file not_a_file : FileBytes

-- The `matches!` tests on a change.
unfoldable pub is_file_write : LayerChange → Bool
is_file_write (write _ _) = true
is_file_write (write_file _ _ _) = true
is_file_write (delete _) = false
is_file_write (symlink _ _) = false
is_file_write (directory _) = false
is_file_write (opaque_dir _) = false

-- `LayerChange::Directory`.
unfoldable pub is_directory : LayerChange → Bool
is_directory (write _ _) = false
is_directory (write_file _ _ _) = false
is_directory (delete _) = false
is_directory (symlink _ _) = false
is_directory (directory _) = true
is_directory (opaque_dir _) = false

-- `LayerChange::OpaqueDir`.
unfoldable pub is_opaque_dir : LayerChange → Bool
is_opaque_dir (write _ _) = false
is_opaque_dir (write_file _ _ _) = false
is_opaque_dir (delete _) = false
is_opaque_dir (symlink _ _) = false
is_opaque_dir (directory _) = false
is_opaque_dir (opaque_dir _) = true

-- What can take the place of a directory.
unfoldable pub replaces_directory : LayerChange → Bool
replaces_directory (write _ _) = true
replaces_directory (write_file _ _ _) = true
replaces_directory (delete _) = true
replaces_directory (symlink _ _) = true
replaces_directory (directory _) = false
replaces_directory (opaque_dir _) = true

unfoldable pub read_file : World → Manifest → LayerPath → Checked FileBytes
read_file w manifest path = elim (w.read_entry_limited path manifest) [
  | pass entry ↦ elim entry [
    | file bytes _ ↦ pass (bytes_read bytes)
    | absent ↦ pass no_file
    | link _ ↦ pass not_a_file
    | folder ↦ pass not_a_file
  ]
  | fail e ↦ elim e [
    | file_too_large ↦ pass not_a_file
    | rejected r ↦ fail (rejected r)
    | io ↦ fail io
  ]
]

unfoldable pub read_command_bytes : World → LayerChange → Checked (List ℕ)
read_command_bytes w (write _ content) = pass content
read_command_bytes w (write_file _ from _) = w.read_source from
read_command_bytes w (delete _) = pass []
read_command_bytes w (symlink _ _) = pass []
read_command_bytes w (directory _) = pass []
read_command_bytes w (opaque_dir _) = pass []

-- The bytes to merge; `none` for what is not a file.
unfoldable pub mergeable : FileBytes → Option (List ℕ)
mergeable (bytes_read bytes) = some bytes
mergeable no_file = some []
mergeable not_a_file = none

-- (The fuel of the merge is always enough.)
unfoldable pub merged_of : Option MergeOutcome → Option MergedPath
merged_of none = none
merged_of (some (clean bytes origin)) = some (record { bytes = bytes; origin = origin })
merged_of (some conflict) = none
merged_of (some ineligible) = none

unfoldable pub merge_path :
    World → Manifest → Manifest → LayerPath → List ℕ → Checked (Option MergedPath)
unfolding and_then read_file mergeable merged_of
merge_path w base active path command = and_then (read_file w base path) (λ base_file.
    elim (mergeable base_file) [
      | none ↦ pass none
      | some base_bytes ↦ and_then (read_file w active path) (λ active_file.
          elim (mergeable active_file) [
            | none ↦ pass none
            | some active_bytes ↦ pass (merged_of (three_way_merge base_bytes active_bytes command))
          ])
    ])

unfoldable pub ranges_of : Option MergedPath → List (LineRange × Origin)
ranges_of none = []
ranges_of (some merged) = merged.origin

unfoldable pub clean_origin :
    World → Manifest → LayerPath → List ℕ → Checked (List (LineRange × Origin))
unfolding and_then read_file mergeable merged_of ranges_of
clean_origin w base path command = and_then (read_file w base path) (λ base_file.
    elim (mergeable base_file) [
      | none ↦ pass []
      | some base_bytes ↦
          pass (ranges_of (merged_of (three_way_merge base_bytes base_bytes command)))
    ])
