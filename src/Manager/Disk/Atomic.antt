-- ===== src/Manager/Disk/Atomic.antt =====
-- crates/sandbox-manager/src/store.rs: whatever stops the write of a snapshot, the registry is the old
-- one or the new one.
use ephemeral_sandbox.Prelude.{
  ℕ, ◌≡◌, ◌≢◌, refl, ap, sym, ◌∙◌, false, Bool-cases, inl, inr, Option, none, some, List, [], ◌∷◌,
  ◌++◌, arith, take, length, length-append, Text, text, text_eq, text_eq_refl, text_eq→eq, find,
  inserted, erased, find-inserted, find-erased, if◌then◌else◌,
}
use ephemeral_sandbox.Manager.Disk.{
  RegistryPath, Stop, at_folder, at_open, at_write, at_sync, at_rename, Disk, staged_snapshot_path,
  write_snapshot,
}

-- The staged file is another file than the registry.
staged-ne :
    (path : RegistryPath) → text_eq (staged_snapshot_path path).file_name path.file_name ≡ false
unfolding staged_snapshot_path
staged-ne path = elim (Bool-cases (text_eq (path.file_name ++ text ".tmp") path.file_name)) [
  | inr h ↦ h
  | inl h ↦ absurd (
      longer path.file_name
        (ap length (text_eq→eq (path.file_name ++ text ".tmp") path.file_name h)))
]
  where
    longer : (s : Text) → length (s ++ text ".tmp") ≢ length s
    longer s e = omega (arith, length-append s (text ".tmp"))

-- The registry reads as `new`, and every file but the registry and the staged file is as it was.
abbrev Leaves : RegistryPath → Disk → Option (List ℕ) → Disk → Type 0
Leaves path disk new after =
    (find path.file_name after ≡ new)
    × ((name : Text)
        → name ≢ path.file_name
        → name ≢ (staged_snapshot_path path).file_name
        → find name after ≡ find name disk)

text_ne : (x y : Text) → x ≢ y → text_eq y x ≡ false
text_ne x y h = elim (Bool-cases (text_eq y x)) [
  | inl e ↦ absurd (h (sym (text_eq→eq y x e)))
  | inr e ↦ e
]

module _ (path : RegistryPath) (disk : Disk) where
  abbrev staged : Text
  staged = (staged_snapshot_path path).file_name

  staged-Leaves :
      (bytes : List ℕ) → Leaves path disk (find path.file_name disk) (inserted staged bytes disk)
  staged-Leaves bytes = (
    find-inserted staged path.file_name bytes disk ∙ rw (staged-ne path),
    λ name _ other. find-inserted staged name bytes disk ∙ rw (text_ne name staged other),
  )

  renamed-Leaves :
      (bytes : List ℕ)
      → Leaves path disk
          (some bytes)
          (inserted path.file_name bytes (erased staged (inserted staged bytes disk)))
  renamed-Leaves bytes = (
    find-inserted path.file_name path.file_name bytes _ ∙ rw (text_eq_refl path.file_name),
    λ name file other.
        find-inserted path.file_name name bytes _
        ∙ rw (text_ne name path.file_name file) (
            find-erased staged name (inserted staged bytes disk)
            ∙ rw (text_ne name staged other) ((staged-Leaves bytes).1 name file other)),
  )

  same-Leaves : Leaves path disk (find path.file_name disk) disk
  same-Leaves = (refl, λ _ _ _. refl)

-- Wherever the write of a snapshot is stopped, the registry has its old bytes or all of the new ones,
-- the new ones exactly if the write succeeds, and every file but the registry and the staged file
-- is as it was.
pub write_snapshot_atomic :
    (stop : Option Stop) (path : RegistryPath) (bytes : List ℕ) (disk : Disk)
    → let result = write_snapshot stop path bytes disk in
      (find path.file_name result.0 ≡ (if result.1 then some bytes else find path.file_name disk))
      × ((name : Text)
          → name ≢ path.file_name
          → name ≢ (staged_snapshot_path path).file_name
          → find name result.0 ≡ find name disk)
unfolding write_snapshot
write_snapshot_atomic none path bytes disk = renamed-Leaves path disk bytes
write_snapshot_atomic (some at_folder) path bytes disk = at path.parent
  where
    at :
        (parent : Text)
        → let result =
            write_snapshot (some at_folder) (record path { parent = parent }) bytes disk in
          Leaves path disk (if result.1 then some bytes else find path.file_name disk) result.0
    at [] = renamed-Leaves path disk bytes
    at (_ ∷ _) = same-Leaves path disk
write_snapshot_atomic (some at_open) path bytes disk = same-Leaves path disk
write_snapshot_atomic (some (at_write n)) path bytes disk = staged-Leaves path disk (take n bytes)
write_snapshot_atomic (some at_sync) path bytes disk = staged-Leaves path disk bytes
write_snapshot_atomic (some at_rename) path bytes disk = staged-Leaves path disk bytes
