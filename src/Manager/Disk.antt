-- ===== src/Manager/Disk.antt =====
-- crates/sandbox-manager/src/store.rs: `write_snapshot` and what a file system is to it. A write that
-- is given up, or a crash, stops it before one of its steps or in the middle of the write.
pub mod Atomic
use ephemeral_sandbox.Prelude.{
  ℕ, Bool, true, false, Option, none, some, List, [], ◌∷◌, ◌++◌, take, Text, text, find, inserted,
  erased,
}

-- A path with a file name, in its folder.
pub record RegistryPath : Type 0 where
  pub parent : Text
  pub file_name : Text

-- Where a write is given up: before a step, in the middle of the bytes, or before the rename.
pub data Stop : Type 0 where
  at_folder at_open at_sync at_rename : Stop
  at_write : ℕ → Stop

-- The files of the folder of the registry, by their names.
abbrev pub Disk : Type 0
Disk = List (Text × List ℕ)

-- `staged_snapshot_path`.
unfoldable pub staged_snapshot_path : RegistryPath → RegistryPath
staged_snapshot_path path = record path { file_name = path.file_name ++ text ".tmp" }

-- `write_snapshot`: the folders, the staged file opened and cut to nothing, its bytes, the sync and
-- the rename. The folder is made if the path names one.
unfoldable pub write_snapshot : Option Stop → RegistryPath → List ℕ → Disk → Disk × Bool
unfolding staged_snapshot_path
write_snapshot stop path bytes disk =
    let staged = (staged_snapshot_path path).file_name in
    let written = inserted staged bytes disk in
    let renamed : Disk × Bool = (inserted path.file_name bytes (erased staged written), true) in
    elim stop [
      | none ↦ renamed
      | some s ↦ elim s [
        | at_folder ↦ elim path.parent [ [] ↦ renamed | _ ∷ _ ↦ (disk, false) ]
        | at_open ↦ (disk, false)
        | at_write n ↦ (inserted staged (take n bytes) disk, false)
        | at_sync ↦ (written, false)
        | at_rename ↦ (written, false)
      ]
    ]
